-- ===== src/Info.antt =====
-- The data of dialect.go, syntax.go, classify.go, align.go and password.go: `Info`, which a model
-- declares about its database, and the types that it names. A function of `Info` that may be nil is
-- an `Option`; a `func` that returns an error returns it on the left.
use dbmeta.Common.{ℕ, Bool, false, Option, none, List, [], ◌⊎◌, Error}
use dbmeta.Common.Text.{Text}
use dbmeta.Value.{Value, ColumnType}
use dbmeta.Version.{VersionSet}

pub record Syntax : Type 0 where
  pub dollar_quotes : Bool
  pub block_comments : Bool
  pub slash_comments : Bool
  pub hash_comments : Bool
  pub backticks : Bool
  pub brackets : Bool
  pub backslash_escapes : Bool
  pub dash_comments : Bool
  pub begin_end_blocks : Bool
  pub anonymous_blocks : Bool

abbrev pub no_syntax : Syntax
no_syntax = record {
  dollar_quotes = false;
  block_comments = false;
  slash_comments = false;
  hash_comments = false;
  backticks = false;
  brackets = false;
  backslash_escapes = false;
  dash_comments = false;
  begin_end_blocks = false;
  anonymous_blocks = false;
}

pub data Terminator : Type 0 where
  kept stripped stripped_unless_end required : Terminator

pub record Batch : Type 0 where
  pub begin : Text
  pub end : Text

pub data Fold : Type 0 where
  fold_none fold_lower fold_upper : Fold

pub data Returning : Type 0 where
  returning_none returning_rows returning_output returning_then_return : Returning

pub record Statements : Type 0 where
  pub returning : Returning
  pub set_lists_settings : Bool
  pub execute_returns_rows : Bool

-- The alignment that is printed; the zero value of `Align` is `align_none`.
pub data Align : Type 0 where
  align_none align_left align_right : Align

pub record PasswordChange : Type 0 where
  pub user : Text
  pub password : Text
  pub old : Text

-- `backslash_escapes` is none when the caller has not read it.
pub record Quoting : Type 0 where
  pub backslash_escapes : Option Bool

pub record Info : Type 0 where
  pub embedded : Bool
  pub placeholder : Option (ℕ → Text)
  pub named : Bool
  pub literal : Option (Value → Error ⊎ Text)
  pub bind_value : Option (Value → Value)
  pub version_query : Text
  pub version_columns : ℕ
  pub parse_version : Option (List Text → Error ⊎ VersionSet)
  pub follow_up_query : Option (VersionSet → Text × ℕ)
  pub parse_follow_up : Option (VersionSet → List Text → Error ⊎ VersionSet)
  pub quoting_query : Text
  pub quoting_columns : ℕ
  pub parse_quoting : Option (List Text → Error ⊎ Quoting)
  pub change_password : Option (PasswordChange → Quoting → Error ⊎ Text)
  pub old_password : Bool
  pub syntax : Syntax
  pub terminator : Terminator
  pub batches : List Batch
  pub fold : Fold
  pub product : Text
  pub every_statement_is_a_query : Bool
  pub writes_need_autocommit : Bool
  pub scan_types : Bool
  pub column_align : Option (ColumnType → Align × Bool)
  pub is_binary : Option (ColumnType → Bool)
  pub statements : Statements
  pub is_guid : Option (ColumnType → Bool)

-- new(Info)
abbrev pub no_info : Info
no_info = record {
  embedded = false;
  placeholder = none;
  named = false;
  literal = none;
  bind_value = none;
  version_query = [];
  version_columns = 0;
  parse_version = none;
  follow_up_query = none;
  parse_follow_up = none;
  quoting_query = [];
  quoting_columns = 0;
  parse_quoting = none;
  change_password = none;
  old_password = false;
  syntax = no_syntax;
  terminator = kept;
  batches = [];
  fold = fold_none;
  product = [];
  every_statement_is_a_query = false;
  writes_need_autocommit = false;
  scan_types = false;
  column_align = none;
  is_binary = none;
  statements = record {
    returning = returning_none;
    set_lists_settings = false;
    execute_returns_rows = false;
  };
  is_guid = none;
}
