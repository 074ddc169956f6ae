-- ===== src/Mempool/Exclusive.antt =====
-- With the mutex set, a lane of BBMempool (blockbuster/mempool.go) ignores what the lanes before it match.
use pob.Prelude.{
  Bool, true, false, List, [], ◌∷◌, ◌++◌, ◌≡◌, refl, subst, ap, ◌∙◌, arith, any, any-append, All,
  Bool-cases, inl, inr, if◌then◌else◌,
}
use pob.Prelude.Outcome.{Outcome, ok, err, panic, lanes_failed, recovered}
use pob.Sdk.{Sdk, Tx}
use pob.Lane.{Env, MatchHandler, Lane, match, check_ignore_list}
use pob.Mempool.{
  with_pool, with_ignore_list, ignore_loop, set_ignore_lists, new_mempool, validate_basic, joined,
  after_lane, after_insert, insert_loop, insert,
}

-- The answer of the one lane that a transaction is handed to.
abbrev pub answer : Outcome (Unit {0}) → Outcome (Unit {0})
answer (ok _) = ok tt
answer (err e) = err lanes_failed
answer panic = err recovered

module _ (sdk : Sdk) {Pool : Type 0} (ctx : Env sdk) (tx : Tx) where
  abbrev pub matches : Lane sdk Pool → Bool
  matches l = match sdk l.self ctx tx

  -- Insertion into the first lane that matches, and no other.
  abbrev pub insert_first : List (Lane sdk Pool) → Outcome (Unit {0}) × List (Lane sdk Pool)
  insert_first [] = (ok tt, [])
  insert_first (l ∷ rest) =
      let (r, pool) = l.self.mempool.insert ctx tx l.self.pool in
      let (behind, lanes) = insert_first rest in
      if matches l then (answer r, with_pool sdk l pool ∷ rest) else (behind, l ∷ lanes)

  abbrev NoneMatches : List (Lane sdk Pool) → Type 0
  NoneMatches = All (λ l. matches l ≡ false)

  ignored-NoneMatches :
      (before : List (MatchHandler sdk)) (lanes : List (Lane sdk Pool))
      → any (λ m. m ctx tx) before ≡ true
      → NoneMatches (ignore_loop sdk before lanes)
  unfolding ignore_loop match check_ignore_list
  ignored-NoneMatches before [] h = tt
  ignored-NoneMatches before (l ∷ rest) h = (
    ground (arith, h),
    ignored-NoneMatches (before ++ (match sdk (with_ignore_list sdk before l).self ∷ [])) rest (
        any-append (λ m. m ctx tx) before (match sdk (with_ignore_list sdk before l).self ∷ [])
        ∙ ground (arith, h)),
  )

  unmatched-insert_loop :
      (lanes : List (Lane sdk Pool))
      → NoneMatches lanes
      → insert_loop sdk ctx tx lanes ≡ (ok false, lanes)
  unfolding insert_loop
  unmatched-insert_loop [] h = refl
  unmatched-insert_loop (l ∷ rest) (h, hs) = rw h (rw (unmatched-insert_loop rest hs) refl)

  answered :
      (l : Lane sdk Pool) (rest : List (Lane sdk Pool)) (r : Outcome (Unit {0}))
      → ◌≡◌ {A = Outcome (Unit {0}) × List (Lane sdk Pool)}
          (
            joined (after_insert sdk l rest (ok false, rest) r).0,
            (after_insert sdk l rest (ok false, rest) r).1,
          )
          (answer r, l ∷ rest)
  unfolding joined
  answered l rest (ok _) = refl
  answered l rest (err e) = refl
  answered l rest panic = refl

  passed_by :
      (l : Lane sdk Pool) (b : Outcome Bool × List (Lane sdk Pool))
      → ◌≡◌ {A = Outcome (Unit {0}) × List (Lane sdk Pool)}
          (joined (after_lane sdk false l b).0, (after_lane sdk false l b).1)
          (joined b.0, l ∷ b.1)
  passed_by l (ok f, lanes) = refl
  passed_by l (err e, lanes) = refl
  passed_by l (panic, lanes) = refl

  inserted_here :
      (l : Lane sdk Pool) (rest : List (Lane sdk Pool))
      → NoneMatches rest
      → matches l ≡ true
      → insert sdk ctx tx (l ∷ rest) ≡ insert_first (l ∷ rest)
  unfolding insert insert_loop
  inserted_here l rest none m = rw m (
      rw (unmatched-insert_loop rest none) (
        answered (with_pool sdk l (l.self.mempool.insert ctx tx l.self.pool).1) rest
          (l.self.mempool.insert ctx tx l.self.pool).0))

  inserted_behind :
      (l : Lane sdk Pool) (rest : List (Lane sdk Pool))
      → matches l ≡ false
      → insert sdk ctx tx rest ≡ insert_first rest
      → insert sdk ctx tx (l ∷ rest) ≡ insert_first (l ∷ rest)
  unfolding insert insert_loop
  inserted_behind l rest m behind = rw m (
      passed_by l (insert_loop sdk ctx tx rest)
      ∙ ap (λ (b : Outcome (Unit {0}) × List (Lane sdk Pool)). (b.0, l ∷ b.1)) behind)

  abbrev Agrees : List (Lane sdk Pool) → Type 0
  Agrees lanes = insert sdk ctx tx lanes ≡ insert_first lanes

  front-Agrees :
      (before : List (MatchHandler sdk)) (i : Lane sdk Pool) (rest : List (Lane sdk Pool))
      → Agrees (ignore_loop sdk (before ++ (match sdk i.self ∷ [])) rest)
      → Agrees (i ∷ ignore_loop sdk (before ++ (match sdk i.self ∷ [])) rest)
  front-Agrees before i rest behind = elim (Bool-cases (matches i)) [
    | inl y ↦
        inserted_here i _
          (ignored-NoneMatches (before ++ (match sdk i.self ∷ [])) rest
            (any-append (λ m. m ctx tx) before (match sdk i.self ∷ []) ∙ ground (arith, y)))
          y
    | inr n ↦ inserted_behind i _ n behind
  ]

  ignoring-Agrees :
      (before : List (MatchHandler sdk)) (lanes : List (Lane sdk Pool))
      → Agrees (ignore_loop sdk before lanes)
  unfolding ignore_loop
  ignoring-Agrees before [] = unfold insert insert_loop joined in refl
  ignoring-Agrees before (l ∷ rest) =
      front-Agrees before (with_ignore_list sdk before l) rest
        (ignoring-Agrees (before ++ (match sdk (with_ignore_list sdk before l).self ∷ [])) rest)

  registry-Agrees : (lanes : List (Lane sdk Pool)) → Agrees (set_ignore_lists sdk lanes)
  unfolding set_ignore_lists
  registry-Agrees [] = unfold insert insert_loop joined in refl
  registry-Agrees (l ∷ rest) = front-Agrees [] l rest (ignoring-Agrees (match sdk l.self ∷ []) rest)

  made-set :
      (lanes registry : List (Lane sdk Pool))
      → new_mempool sdk true lanes ≡ ok registry
      → set_ignore_lists sdk lanes ≡ registry
  unfolding new_mempool
  made-set lanes registry made = by_validity (validate_basic sdk lanes) refl
    where
      ok_made :
          ◌≡◌ {A = Outcome (List (Lane sdk Pool))} (ok (set_ignore_lists sdk lanes)) (ok registry)
          → set_ignore_lists sdk lanes ≡ registry
      ok_made m = cc m

      refused :
          ◌≡◌ {A = Outcome (List (Lane sdk Pool))} panic (ok registry)
          → set_ignore_lists sdk lanes ≡ registry
      refused m = cc m

      by_validity :
          (v : Outcome (Unit {0}))
          → validate_basic sdk lanes ≡ v
          → set_ignore_lists sdk lanes ≡ registry
      by_validity (ok _) e = ok_made (rw (new_mempool, e) at made)
      by_validity (err x) e = refused (rw (new_mempool, e) at made)
      by_validity panic e = refused (rw (new_mempool, e) at made)

  -- In a mempool that NewMempool makes with the mutex set, Insert hands a transaction to the first lane in the
  -- registry that matches it and to no other, and leaves all other lanes as they are; where none matches, it
  -- returns no error. Its error is that of the one lane.
  pub insert_first_lem :
      (lanes registry : List (Lane sdk Pool))
      → new_mempool sdk true lanes ≡ ok registry
      → insert sdk ctx tx registry ≡ insert_first registry
  insert_first_lem lanes registry made =
      subst Agrees (made-set lanes registry made) (registry-Agrees lanes)
