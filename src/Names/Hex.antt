-- ===== src/Names/Hex.antt =====
-- `FormatBinary` of binary.go, read back.
use dbmeta.Common.{
  ℕ, zero, suc, ◌+◌, ◌-◌, ◌*◌, ◌/◌, ◌%◌, ◌≡◌, ◌<◌, refl, sym, ap, ap₂, ◌∙◌, Bool, true, false, ◌&&◌,
  Option, none, some, List, [], ◌∷◌, ◌++◌, length, take, drop, ltb, if◌then◌else◌, ◌==◌, Bool-cases,
  inl, inr, All, arith,
}
use dbmeta.Common.Text.{Text}
use dbmeta.Value.{ColumnType}
use dbmeta.Info.{Info}
use dbmeta.Dialect.{Dialect, Infos, info_of}
use dbmeta.Names.{hex, hex_digit, hex_prefix, guid_text, holds, binary_text, format_binary}

-- The value of a hexadecimal digit.
abbrev pub digit_value : ℕ → ℕ
digit_value c = if ltb c b'a' then c - b'0' else c - b'a' + 10

-- The bytes that pairs of digits stand for.
abbrev pub unhex : Text → List ℕ
unhex [] = []
unhex (_ ∷ []) = []
unhex (a ∷ b ∷ s) = (16 * digit_value a + digit_value b) ∷ unhex s

abbrev pub IsByte : ℕ → Type 0
IsByte b = b < 256

digit_back : (n : ℕ) → n < 16 → digit_value (hex_digit n) ≡ n
digit_back n h = ground arith

byte_back :
    (b : ℕ)
    → IsByte b
    → 16 * digit_value (hex_digit (b / 16)) + digit_value (hex_digit (b % 16)) ≡ b
byte_back b h =
    ap₂ (λ x y. 16 * x + y) (digit_back (b / 16) (omega arith)) (digit_back (b % 16) (omega arith))
    ∙ omega arith

pub unhex-hex : (bytes : List ℕ) → All IsByte bytes → unhex (hex bytes) ≡ bytes
unfolding hex
unhex-hex [] h = refl
unhex-hex (b ∷ bytes) (h, hs) = ap₂ (λ x xs. x ∷ xs) (byte_back b h) (unhex-hex bytes hs)

-- A text without its dashes.
abbrev pub strip : Text → Text
strip [] = []
strip (c ∷ s) = if c == b'-' then strip s else c ∷ strip s

strip-append : (s t : Text) → strip (s ++ t) ≡ strip s ++ strip t
strip-append [] t = refl
strip-append (c ∷ s) t = elim (Bool-cases (c == b'-')) [
  | inl e ↦ rw (e, strip) (strip-append s t)
  | inr e ↦ rw (e, strip) (ap (λ x. c ∷ x) (strip-append s t))
]

strip-hex : (bytes : List ℕ) → strip (hex bytes) ≡ hex bytes
unfolding hex
strip-hex [] = refl
strip-hex (b ∷ bytes) = ground (arith, strip-hex bytes)

take-drop : {A : Type 0} (n : ℕ) (h : List A) → take n h ++ drop n h ≡ h
take-drop zero h = refl
take-drop (suc n) [] = refl
take-drop (suc n) (x ∷ h) = ap (λ r. x ∷ r) (take-drop n h)

drop_nil : {A : Type 0} (n : ℕ) → drop {A = A} n [] ≡ []
drop_nil zero = refl
drop_nil (suc n) = refl

at_place : {A : Type 0} {m n : ℕ} (h : List A) → m ≡ n → drop m h ≡ drop n h
at_place h e = ap (λ k. drop k h) e

drop-drop : {A : Type 0} (m n : ℕ) (h : List A) → drop n (drop m h) ≡ drop (m + n) h
drop-drop zero n h = at_place h (omega arith)
drop-drop (suc m) n [] = drop_nil n ∙ sym (drop_nil (suc m + n))
drop-drop (suc m) n (x ∷ h) = drop-drop m n h ∙ at_place {m = suc (m + n)} (x ∷ h) (omega arith)

-- A group and a dash, in front of what is behind the group.
group :
    (m n : ℕ) (h rest : Text)
    → strip rest ≡ strip (drop (m + n) h)
    → strip (take n (drop m h) ++ (b'-' ∷ rest)) ≡ strip (drop m h)
group m n h rest e =
    strip-append (take n (drop m h)) (b'-' ∷ rest)
    ∙ (ap (λ r. strip (take n (drop m h)) ++ r) (e ∙ ap strip (sym (drop-drop m n h)))
        ∙ (sym (strip-append (take n (drop m h)) (drop n (drop m h)))
            ∙ ap strip (take-drop n (drop m h))))

strip-guid_text : (h : Text) → strip (guid_text h) ≡ strip h
unfolding guid_text
strip-guid_text h = group 0 8 h _ (group 8 4 h _ (group 12 4 h _ (group 16 4 h (drop 20 h) refl)))

-- What `FormatBinary` writes, read back: the digits behind `\x`, or those of a GUID.
abbrev pub read_binary : Text → List ℕ
read_binary [] = []
read_binary (c ∷ s) = if c == 92 then unhex (drop 1 s) else unhex (strip (c ∷ s))

read_plain : (bytes : List ℕ) → All IsByte bytes → read_binary (hex_prefix ++ hex bytes) ≡ bytes
read_plain bytes h = unhex-hex bytes h

digit_not_slash : (n : ℕ) → n < 16 → (hex_digit n == 92) ≡ false
digit_not_slash n h = ground arith

strip_guid_back :
    (bytes : List ℕ) → All IsByte bytes → unhex (strip (guid_text (hex bytes))) ≡ bytes
strip_guid_back bytes h =
    ap unhex (strip-guid_text (hex bytes) ∙ strip-hex bytes) ∙ unhex-hex bytes h

read_guid : (bytes : List ℕ) → All IsByte bytes → read_binary (guid_text (hex bytes)) ≡ bytes
unfolding guid_text hex
read_guid [] h = refl
read_guid (b ∷ bytes) h =
    rw (digit_not_slash (b / 16) (omega (arith, h.0))) (strip_guid_back (b ∷ bytes) h)

-- The texts of a GUID and of any other value, of which one is written or none.
read_either :
    (binary guid : Bool) (x y t : Text) (bytes : List ℕ)
    → read_binary x ≡ bytes
    → read_binary y ≡ bytes
    → (if binary then (if guid then some x else some y) else none) ≡ some t
    → read_binary t ≡ bytes
read_either true true x y t bytes h k e = cc
read_either true false x y t bytes h k e = cc
read_either false guid x y t bytes h k e = cc

by_info :
    (i : Option Info) (ct : ColumnType) (bytes : List ℕ) (t : Text)
    → All IsByte bytes
    → binary_text i ct bytes ≡ some t
    → read_binary t ≡ bytes
unfolding binary_text
by_info none ct bytes t h e = cc
by_info (some info) ct bytes t h e =
    read_either (holds info.is_binary ct) (length bytes == 16 && holds info.is_guid ct)
      (guid_text (hex bytes)) (hex_prefix ++ hex bytes) t bytes (read_guid bytes h)
      (read_plain bytes h) e

-- What `FormatBinary` writes for a value of bytes can be read back: the pairs of digits behind `\x`, or
-- those of a GUID without its dashes, are the bytes of the value, in order and none lost.
pub read_binary-format_binary :
    (infos : Infos) (d : Dialect) (ct : ColumnType) (bytes : List ℕ) (t : Text)
    → All IsByte bytes
    → format_binary infos d ct bytes ≡ some t
    → read_binary t ≡ bytes
unfolding format_binary
read_binary-format_binary infos d ct bytes t h e = by_info (info_of infos d) ct bytes t h e
