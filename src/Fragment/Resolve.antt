-- ===== src/Fragment/Resolve.antt =====
-- `Choice.Resolve` of query.go.
use dbmeta.Common.{
  ℕ, zero, suc, ◌≡◌, ◌≢◌, refl, sym, subst, ◌∙◌, ◌⊎◌, inl, inr, true, false, [], ◌∷◌, arith, In,
  first, later, ◌==◌, is_empty, if◌then◌else◌, Bool-cases, Result, ok, err, false≢true, ◌>>=◌,
  ambiguous_fragment,
}
use dbmeta.Common.Text.{Text}
use dbmeta.Version.{VersionSet, at_least}
use dbmeta.Version.Order.{at_least_trans}
use dbmeta.Fragment.{
  Fragment, Choice, Best, nothing, best, gate, met, reachable, prefer, consider, resolve_loop,
  chosen, resolve,
}
use dbmeta.Fragment.Rules.{
  IsMet, IsReachable, Beats, Outcome, picked, ambiguous, wrong_product, too_old, Outcome-map,
  KnowsBest, KnowsCount, AndSeen, is_empty_nil, at_least_self, Preferred, newer, older, keyed,
  unkeyed, clash, prefer-Preferred,
}

module _ (versions : VersionSet) where
  -- Beating is kept when a better fragment of the same key takes over.
  Beats-trans :
      (f g h : Fragment)
      → g.key ≡ f.key
      → at_least f.min g.min ≡ true
      → Beats versions g h
      → Beats versions f h
  Beats-trans f g h same at (ordered, ranked) = (
    λ e. at_least_trans f.min g.min h.min at (ordered (e ∙ sym same)),
    elim ranked [ inl e ↦ inl (e ∙ same) | inr e ↦ inr e ],
  )

  -- A keyed fragment beats what an unkeyed one beats.
  Beats-unkeyed :
      (f g h : Fragment) → g.key ≡ [] → f.key ≢ [] → Beats versions g h → Beats versions f h
  Beats-unkeyed f g h none named (_, ranked) =
      let bare : h.key ≡ [] = elim ranked [ inl e ↦ e ∙ none | inr e ↦ e ] in
      (λ e. absurd (named (sym e ∙ bare)), inr bare)

  Beats-self : (f : Fragment) → Beats versions f f
  Beats-self f = (λ _. at_least_self f, inl refl)

  -- One fragment more keeps what is known of the best one, or the keys clash.
  data Considered (Seen : Fragment → Type 0) (c : Choice) (f : Fragment)
      : Result Best → Type 0 where
    still : (b : Best) → KnowsBest versions (AndSeen Seen f) b → Considered Seen c f (ok b)
    clashed :
        Outcome versions (AndSeen Seen f) c (err ambiguous_fragment)
        → Considered Seen c f (err ambiguous_fragment)

  consider_knows :
      (Seen : Fragment → Type 0) (c : Choice) (b : Best) (f : Fragment)
      → KnowsBest versions Seen b
      → IsMet versions f
      → Considered Seen c f (consider b f)
  unfolding consider
  consider_knows Seen c nothing f k m = still (best f) (
    inr refl,
    m,
    λ g seen met_g. elim seen [
      | inl s ↦ absurd (k g s met_g)
      | inr e ↦ subst (Beats versions f) (sym e) (Beats-self f)
    ],
  )
  consider_knows Seen c (best b) f (seen_b, met_b, beats) m = go (prefer b f) (prefer-Preferred b f)
    where
      swap_new :
          ((g : Fragment) → Beats versions b g → Beats versions f g)
          → KnowsBest versions (AndSeen Seen f) (best f)
      swap_new better = (
        inr refl,
        m,
        λ g seen met_g. elim seen [
          | inl s ↦ better g (beats g s met_g)
          | inr e ↦ subst (Beats versions f) (sym e) (Beats-self f)
        ],
      )

      keep_old : Beats versions b f → KnowsBest versions (AndSeen Seen f) (best b)
      keep_old wins = (
        inl seen_b,
        met_b,
        λ g seen met_g. elim seen [
          | inl s ↦ beats g s met_g
          | inr e ↦ subst (Beats versions b) (sym e) wins
        ],
      )

      go :
          (r : Result Fragment)
          → Preferred b f r
          → Considered Seen c f (r >>= λ kept. ok (best kept))
      go r (newer same at) = still (best f) (swap_new λ g. Beats-trans f b g same at)
      go r (older same at) = still (best b) (keep_old (λ _. at, inl (sym same)))
      go r (keyed none differ) =
          still (best f) (swap_new λ g. Beats-unkeyed f b g none λ e. differ (none ∙ sym e))
      go r (unkeyed none differ) =
          still (best b) (keep_old (λ e. absurd (differ (sym e)), inr none))
      go r (clash kb kf differ) =
          clashed (ambiguous b f (inl seen_b, inr refl, met_b, m) kb kf differ)

  reachable→IsReachable : (f : Fragment) → reachable f versions ≡ true → IsReachable versions f
  unfolding reachable
  reachable→IsReachable f h = elim (Bool-cases (is_empty f.key)) [
    | inl e ↦ inl (is_empty_nil f.key e)
    | inr e ↦ inr (ground arith)
  ]

  unreachable : (f : Fragment) → reachable f versions ≡ false → ¬ IsReachable versions f
  unfolding reachable
  unreachable f h (inl e) = ground arith
  unreachable f h (inr e) = ground arith

  count_knows :
      (Seen : Fragment → Type 0) (f : Fragment) (n : ℕ)
      → KnowsCount versions Seen n
      → KnowsCount versions (AndSeen Seen f) (if reachable f versions then suc n else n)
  count_knows Seen f n k = elim (Bool-cases (reachable f versions)) [
    | inl e ↦ rw e (f, inr refl, reachable→IsReachable f e)
    | inr e ↦ rw e (same n k (unreachable f e))
  ]
    where
      same :
          (m : ℕ)
          → KnowsCount versions Seen m
          → ¬ IsReachable versions f
          → KnowsCount versions (AndSeen Seen f) m
      same zero k r =
          λ g seen. elim seen [ inl s ↦ k g s | inr e ↦ λ h. r (subst (IsReachable versions) e h) ]
      same (suc m) (g, s, h) r = (g, inl s, h)

  suc_not_zero : (n : ℕ) → (suc n == 0) ≡ false
  suc_not_zero n = ground arith

  chosen-Outcome :
      (Seen : Fragment → Type 0) (c : Choice) (b : Best) (n : ℕ)
      → KnowsBest versions Seen b
      → KnowsCount versions Seen n
      → Outcome versions Seen c (chosen c (b, n))
  unfolding chosen
  chosen-Outcome Seen c (best f) n (s, m, beats) k = picked f s m beats
  chosen-Outcome Seen [] nothing n h k = too_old h (inl refl)
  chosen-Outcome Seen (f ∷ c) nothing zero h k = wrong_product (λ e. cc) h k
  chosen-Outcome Seen (f ∷ c) nothing (suc n) h k = rw (suc_not_zero n) (too_old h (inr k))

  regroup :
      (Seen : Fragment → Type 0) (f : Fragment) (rest c : Choice) (r : Result Text)
      → Outcome versions (λ g. AndSeen Seen f g ⊎ In g rest) c r
      → Outcome versions (λ g. Seen g ⊎ In g (f ∷ rest)) c r
  regroup Seen f rest c r = Outcome-map versions to from
    where
      to : (g : Fragment) → (AndSeen Seen f g ⊎ In g rest) → Seen g ⊎ In g (f ∷ rest)
      to g (inl (inl s)) = inl s
      to g (inl (inr e)) = inr (subst (λ h. In h (f ∷ rest)) (sym e) first)
      to g (inr i) = inr (later i)

      from : (g : Fragment) → (Seen g ⊎ In g (f ∷ rest)) → AndSeen Seen f g ⊎ In g rest
      from g (inl s) = inl (inl s)
      from g (inr first) = inl (inr refl)
      from g (inr (later i)) = inr i

  still_best :
      (Seen : Fragment → Type 0) (b : Best) (f : Fragment)
      → KnowsBest versions Seen b
      → met (gate f) versions ≡ false
      → KnowsBest versions (AndSeen Seen f) b
  still_best Seen nothing f k unmet = λ g seen m. elim seen [
    | inl s ↦ k g s m
    | inr e ↦ false≢true (sym unmet ∙ subst (IsMet versions) e m)
  ]
  still_best Seen (best h) f (s, m, beats) unmet = (
    inl s,
    m,
    λ g seen met_g. elim seen [
      | inl s' ↦ beats g s' met_g
      | inr e ↦ absurd (false≢true (sym unmet ∙ subst (IsMet versions) e met_g))
    ],
  )

  resume :
      (Seen : Fragment → Type 0) (c : Choice) (f : Fragment) (rest : Choice) (r : Result Best)
      (next : Best → Result (Best × ℕ))
      → Considered Seen c f r
      → ((b : Best)
          → KnowsBest versions (AndSeen Seen f) b
          → Outcome versions (λ g. AndSeen Seen f g ⊎ In g rest) c (next b >>= chosen c))
      → Outcome versions (λ g. AndSeen Seen f g ⊎ In g rest) c ((r >>= next) >>= chosen c)
  resume Seen c f rest r next (still b k) go = go b k
  resume Seen c f rest r next (clashed (ambiguous g h (p, p', m, m') kg kh d)) go =
      ambiguous g h (inl p, inl p', m, m') kg kh d

  loop_unmet :
      (b : Best) (n : ℕ) (f : Fragment) (rest : Choice)
      → met (gate f) versions ≡ false
      → resolve_loop versions b n (f ∷ rest)
        ≡ resolve_loop versions b (if reachable f versions then suc n else n) rest
  unfolding resolve_loop
  loop_unmet b n f rest h = rw (h, resolve_loop)

  loop_met :
      (b : Best) (n : ℕ) (f : Fragment) (rest : Choice)
      → met (gate f) versions ≡ true
      → resolve_loop versions b n (f ∷ rest) ≡ (
          consider b f >>= λ b'.
          resolve_loop versions b' (if reachable f versions then suc n else n) rest)
  unfolding resolve_loop
  loop_met b n f rest h = rw (h, resolve_loop)

  resolve_loop-Outcome :
      (Seen : Fragment → Type 0) (c : Choice) (b : Best) (n : ℕ) (rest : Choice)
      → KnowsBest versions Seen b
      → KnowsCount versions Seen n
      → Outcome versions (λ g. Seen g ⊎ In g rest) c (resolve_loop versions b n rest >>= chosen c)
  resolve_loop-Outcome Seen c b n [] k count =
      Outcome-map versions (λ g s. inl s) (λ g s. elim s [ inl h ↦ h | inr i ↦ elim i [ ] ])
        (unfold resolve_loop in chosen-Outcome Seen c b n k count)
  resolve_loop-Outcome Seen c b n (f ∷ rest) k count =
      let counted = count_knows Seen f n count in
      let go = λ (b' : Best) (k' : KnowsBest versions (AndSeen Seen f) b').
        resolve_loop-Outcome (AndSeen Seen f) c b' _ rest k' counted in
      regroup Seen f rest c _ (elim (Bool-cases (met (gate f) versions)) [
        | inr unmet ↦
            subst (λ r. Outcome versions (λ g. AndSeen Seen f g ⊎ In g rest) c (r >>= chosen c))
              (sym (loop_unmet b n f rest unmet)) (go b (still_best Seen b f k unmet))
        | inl is_met ↦
            subst (λ r. Outcome versions (λ g. AndSeen Seen f g ⊎ In g rest) c (r >>= chosen c))
              (sym (loop_met b n f rest is_met))
              (resume Seen c f rest (consider b f) _ (consider_knows Seen c b f k is_met) go)
      ])

-- `Resolve` on a choice `c` gives the query of an alternative in `c` whose gate the server meets and
-- that beats every other such one: the same key and no older Min, or no key on the other; or it says
-- that two alternatives met have different keys; or, when none is met, that the product is the wrong
-- one (`c` is not empty and no alternative can be reached) or that the server is too old (`c` is empty
-- or some alternative can be reached). It gives nothing else.
pub resolve-Outcome :
    (c : Choice) (versions : VersionSet) → Outcome versions (λ f. In f c) c (resolve c versions)
unfolding resolve
resolve-Outcome c versions =
    Outcome-map versions (λ g s. elim s [ inl h ↦ absurd h | inr i ↦ i ]) (λ g i. inr i)
      (resolve_loop-Outcome versions (λ _. ⊥) c nothing 0 c (λ g s. absurd s) (λ g s. absurd s))
