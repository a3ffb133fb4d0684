-- ===== src/Bind/Pieces.antt =====
-- `bind` of query.go on a statement given as its pieces.
use dbmeta.Common.{
  All-append, ℕ, zero, suc, ◌<◌, ◌≡◌, ◌≢◌, refl, sym, ap, ◌∙◌, true, false, none, some, List, [],
  ◌∷◌, ◌++◌, append_assoc, append-nil, length, length-append, All, arith, ◌==◌, Result, ok, err,
  panic, out_of_fuel, ◌>>=◌, ◌>>◌, require, unknown_param,
}
use dbmeta.Common.Text.{Text}
use dbmeta.Value.{Bound}
use dbmeta.Info.{Info}
use dbmeta.Bind.{
  Param, Derived, Args, at_sign, is_name_byte, cut_at, span_name, write_name, bind_name, bind_at,
  bind_loop, bind, all_known, known_params,
}

-- A statement in pieces: text, a system variable `@@x`, an at sign alone, and a parameter `@x`.
pub data Piece : Type 0 where
  raw : Text → Piece
  system : Text → Piece
  lone : Piece
  param : Text → Piece

-- The text of a piece in front of what follows.
unfoldable pub source : List Piece → Text
source [] = []
source (raw t ∷ ps) = t ++ source ps
source (system name ∷ ps) = at_sign ∷ at_sign ∷ (name ++ source ps)
source (lone ∷ ps) = at_sign ∷ source ps
source (param name ∷ ps) = at_sign ∷ (name ++ source ps)

abbrev pub NoAt : ℕ → Type 0
NoAt c = (c == at_sign) ≡ false

abbrev pub NameByte : ℕ → Type 0
NameByte c = is_name_byte c ≡ true

-- The text does not go on with a name byte.
abbrev pub EndsName : Text → Type 0
EndsName [] = Unit
EndsName (c ∷ s) = is_name_byte c ≡ false

abbrev pub EndsAt : Text → Type 0
EndsAt [] = Unit
EndsAt (c ∷ s) = NoAt c

-- Each piece is as long as it can be: text holds no at sign, a name is of name bytes and ends where
-- the next piece begins, and a lone at sign stands before neither a name byte nor an at sign.
abbrev pub IsPieces : List Piece → Type 0
IsPieces [] = Unit
IsPieces (raw t ∷ ps) = All NoAt t × IsPieces ps
IsPieces (system name ∷ ps) = All NameByte name × EndsName (source ps) × IsPieces ps
IsPieces (lone ∷ ps) = EndsName (source ps) × EndsAt (source ps) × IsPieces ps
IsPieces (param name ∷ ps) = (name ≢ []) × All NameByte name × EndsName (source ps) × IsPieces ps

cut_at-raw : (t s : Text) → All NoAt t → cut_at (t ++ at_sign ∷ s) ≡ some (t, s)
unfolding cut_at
cut_at-raw [] s h = ground arith
cut_at-raw (c ∷ t) s h = ground (arith, cut_at-raw t s)

cut_at-none : (t : Text) → All NoAt t → cut_at t ≡ none
unfolding cut_at
cut_at-none [] h = refl
cut_at-none (c ∷ t) h = ground (arith, cut_at-none t)

span_name-append :
    (name s : Text) → All NameByte name → EndsName s → span_name (name ++ s) ≡ (name, s)
unfolding span_name
span_name-append [] [] h k = refl
span_name-append [] (c ∷ s) h k = rw k
span_name-append (c ∷ name) s h k = rw (span_name-append name s h.1 k, h.0) refl

name_not_at : (c : ℕ) → NameByte c → NoAt c
name_not_at c h = ground arith

abbrev pub Written : Type 0
Written = Result (Text × List Bound)

-- A result with a text in front of what is written.
pub with_text : Text → Written → Written
with_text t (ok (out, vals)) = ok (t ++ out, vals)
with_text t (err e) = err e
with_text t (panic m) = panic m
with_text t out_of_fuel = out_of_fuel

with_text-append : (s t : Text) (r : Written) → with_text s (with_text t r) ≡ with_text (s ++ t) r
unfolding with_text
with_text-append s t (ok (out, vals)) = ap (λ u. ok (u, vals)) (sym (append_assoc s t out))
with_text-append s t (err e) = refl
with_text-append s t (panic m) = refl
with_text-append s t out_of_fuel = refl

with_text_nil : (r : Written) → with_text [] r ≡ r
unfolding with_text
with_text_nil (ok (out, vals)) = refl
with_text_nil (err e) = refl
with_text_nil (panic m) = refl
with_text_nil out_of_fuel = refl

settle : (s t : Text) (r : Written) → with_text ((s ++ t) ++ []) r ≡ with_text s (with_text t r)
settle s t r = ap (λ u. with_text u r) (append-nil (s ++ t)) ∙ sym (with_text-append s t r)

-- A write, and then the rest with its values.
pub then_write : Written → (List Bound → Written) → Written
then_write r next = r >>= λ (written, vals). with_text written (next vals)

module _ (info : Info) (params : List Param) (derived : List Derived) (args : Args) where
  -- What each piece becomes: itself, or for a parameter what its value is written as.
  unfoldable pub render : List Bound → List Piece → Written
  unfolding with_text then_write
  render vals [] = ok ([], vals)
  render vals (raw t ∷ ps) = with_text t (render vals ps)
  render vals (system name ∷ ps) = with_text (at_sign ∷ at_sign ∷ name) (render vals ps)
  render vals (lone ∷ ps) = with_text (at_sign ∷ []) (render vals ps)
  render vals (param name ∷ ps) =
      let rest = λ (vals' : List Bound). render vals' ps in
      then_write (write_name info params derived args vals name) rest

  step_none :
      (f : ℕ) (s out : Text) (vals : List Bound)
      → cut_at s ≡ none
      → bind_loop info params derived args (suc f) s out vals ≡ ok (out ++ s, vals)
  unfolding bind_loop
  step_none f s out vals h = rw (h, bind_loop)

  step_some :
      (f : ℕ) (s out before rest : Text) (vals : List Bound)
      → cut_at s ≡ some (before, rest)
      → bind_loop info params derived args (suc f) s out vals
        ≡ bind_at info params derived args
            (bind_loop info params derived args f)
            (out ++ before)
            vals
            rest
  unfolding bind_loop
  step_some f s out before rest vals h = rw (h, bind_loop)

  module _ (next : Text → Text → List Bound → Written) (out : Text) (vals : List Bound) where
    at_system :
        (name s : Text)
        → All NameByte name
        → EndsName s
        → bind_at info params derived args next out vals (at_sign ∷ (name ++ s))
          ≡ next s (out ++ (at_sign ∷ at_sign ∷ name)) vals
    unfolding bind_at
    at_system name s h k =
        ap (λ (p : Text × Text). next p.1 (out ++ (at_sign ∷ at_sign ∷ p.0)) vals)
          (span_name-append name s h k)

    at_lone :
        (s : Text)
        → EndsName s
        → EndsAt s
        → bind_at info params derived args next out vals s ≡ next s (out ++ at_sign ∷ []) vals
    unfolding bind_at bind_name
    at_lone [] h k = refl
    at_lone (c ∷ s) h k =
        rw k
          (ap (bind_name info params derived args next out vals) (span_name-append [] (c ∷ s) tt h))

    at_param :
        (c : ℕ) (name s : Text)
        → All NameByte (c ∷ name)
        → EndsName s
        → bind_at info params derived args next out vals ((c ∷ name) ++ s) ≡ (
            write_name info params derived args vals (c ∷ name) >>= λ (written, vals').
            next s (out ++ written) vals')
    unfolding bind_at bind_name
    at_param c name s h k =
        rw (name_not_at c h.0) (
          ap (bind_name info params derived args next out vals) (span_name-append (c ∷ name) s h k))

  continue_write :
      (r : Written) (next : List Bound → Written) (after : Text → List Bound → Written) (out : Text)
      → ((written : Text) (vals : List Bound)
          → after (out ++ written) vals ≡ with_text (out ++ written) (next vals))
      → (r >>= λ (written, vals). after (out ++ written) vals) ≡ with_text out (then_write r next)
  unfolding with_text then_write
  continue_write (ok (written, vals)) next after out h =
      h written vals ∙ sym (with_text-append out written (next vals))
  continue_write (err e) next after out h = refl
  continue_write (panic m) next after out h = refl
  continue_write out_of_fuel next after out h = refl

  -- The loop with enough fuel, with text before the pieces that is not yet written.
  bind_loop-render :
      (f : ℕ) (t out : Text) (vals : List Bound) (ps : List Piece)
      → length (source ps) < f
      → All NoAt t
      → IsPieces ps
      → bind_loop info params derived args f (t ++ source ps) out vals
        ≡ with_text (out ++ t) (render vals ps)
  unfolding source render with_text
  bind_loop-render zero t out vals ps h k w = absurd (omega arith)
  bind_loop-render (suc f) t out vals [] h k w =
      step_none f (t ++ []) out vals (rw (append-nil t) (cut_at-none t k))
      ∙ ap (λ u. ok (u, vals)) (sym (append_assoc out t []))
  bind_loop-render (suc f) t out vals (raw u ∷ ps) h k (nu, w) =
      ap (λ s. bind_loop info params derived args (suc f) s out vals)
        (sym (append_assoc t u (source ps)))
      ∙ bind_loop-render (suc f) (t ++ u) out vals ps (omega (arith, length-append u (source ps)))
          (All-append NoAt t u k nu) w
      ∙ ap (λ s. with_text s (render vals ps)) (sym (append_assoc out t u))
      ∙ sym (with_text-append (out ++ t) u (render vals ps))
  bind_loop-render (suc f) t out vals (system name ∷ ps) h k (nn, e, w) =
      step_some f _ out t _ vals (cut_at-raw t _ k)
      ∙ at_system _ (out ++ t) vals name (source ps) nn e
      ∙ bind_loop-render f [] _ vals ps (omega (arith, length-append name (source ps))) tt w
      ∙ settle (out ++ t) (at_sign ∷ at_sign ∷ name) (render vals ps)
  bind_loop-render (suc f) t out vals (lone ∷ ps) h k (e, a, w) =
      step_some f _ out t _ vals (cut_at-raw t _ k)
      ∙ at_lone _ (out ++ t) vals (source ps) e a
      ∙ bind_loop-render f [] _ vals ps (omega arith) tt w
      ∙ settle (out ++ t) (at_sign ∷ []) (render vals ps)
  bind_loop-render (suc f) t out vals (param [] ∷ ps) h k (ne, nn, e, w) = absurd (ne refl)
  bind_loop-render (suc f) t out vals (param (c ∷ name) ∷ ps) h k (ne, nn, e, w) =
      step_some f _ out t _ vals (cut_at-raw t _ k)
      ∙ at_param _ (out ++ t) vals c name (source ps) nn e
      ∙ continue_write (write_name info params derived args vals (c ∷ name))
          (λ vals'. render vals' ps) (λ o v. bind_loop info params derived args f (source ps) o v)
          (out ++ t)
          (λ written vals'.
            bind_loop-render f [] ((out ++ t) ++ written) vals' ps
              (omega (arith, length-append name (source ps))) tt w
            ∙ ap (λ s. with_text s (render vals' ps)) (append-nil ((out ++ t) ++ written)))

-- On a statement given as its pieces `bind` first refuses an argument that is no parameter. Otherwise
-- it writes text, system variables and lone at signs as they are, and each parameter as its value is
-- written behind the values before it; the first error of a parameter is its error.
pub bind-render :
    (ps : List Piece) (info : Info) (params : List Param) (derived : List Derived) (args : Args)
    → IsPieces ps
    → bind (source ps) info params derived args ≡ (
        require (all_known (known_params [] params) args) unknown_param
        >> render info params derived args [] ps)
unfolding bind
bind-render ps info params derived args w =
    ap (λ (r : Written). require (all_known (known_params [] params) args) unknown_param >> r)
      (bind_loop-render info params derived args (suc (length (source ps))) [] [] [] ps
          (omega arith) tt w
        ∙ with_text_nil (render info params derived args [] ps))
