-- ===== src/Contexts/Pool.antt =====
-- The pool fills from the front and has no holes.
use lw_nbd.Prelude.{
  ℕ, zero, suc, ◌+◌, ◌≤◌, ◌<◌, ◌≡◌, refl, ap, ◌∙◌, true, false, Option, none, some, subst, List, [],
  ◌∷◌, length, length-set, get_elem?, set, ◌==◌, Bool-cases, ◌⊎◌, inl, inr, arith,
}
use lw_nbd.Plugin.{Context}
use lw_nbd.Text.{same_prefix}
use lw_nbd.Contexts.{
  Status, free, created, Contexts, max_contexts, first_free, lwnbd_new_context,
  lwnbd_contexts_count, find_context, lwnbd_get_context_string,
}

-- No created element stands behind a free one.
abbrev pub AllFree : List Status → Type 0
AllFree [] = Unit
AllFree (s ∷ st) = (s ≡ free) × AllFree st

abbrev pub NoHoles : List Status → Type 0
NoHoles [] = Unit
NoHoles (free ∷ st) = AllFree st
NoHoles (created ∷ st) = NoHoles st

pub record IsPool {D : Type 0} (cs : Contexts D) : Type 0 where
  pub contexts_size : length cs.contexts ≡ max_contexts
  pub status_size : length cs.contexts_status ≡ max_contexts
  pub no_holes : NoHoles cs.contexts_status

first_free-le : (st : List Status) → first_free st ≤ length st
unfolding first_free
first_free-le [] = omega arith
first_free-le (free ∷ st) = omega arith
first_free-le (created ∷ st) = omega (arith, first_free-le st)

AllFree-first_free : (st : List Status) → AllFree st → first_free st ≡ 0
unfolding first_free
AllFree-first_free [] h = refl
AllFree-first_free (free ∷ st) h = refl
AllFree-first_free (created ∷ st) h = cc (h.0)

first_free-set :
    (st : List Status)
    → NoHoles st
    → first_free st < length st
    → (first_free (set st (first_free st) created) ≡ first_free st + 1)
      × NoHoles (set st (first_free st) created)
unfolding first_free
first_free-set [] h lt = absurd (omega arith)
first_free-set (free ∷ st) h lt = (ap suc (AllFree-first_free st h), all_free-NoHoles st h)
  where
    all_free-NoHoles : (l : List Status) → AllFree l → NoHoles l
    all_free-NoHoles [] q = q
    all_free-NoHoles (free ∷ l) q = q.1
    all_free-NoHoles (created ∷ l) q = cc (q.0)
first_free-set (created ∷ st) h lt =
    let ih = first_free-set st h (omega arith) in (omega (arith, ih.0), ih.1)

module _ {D : Type 0} where
  -- While the pool has room, `lwnbd_new_context` hands out the element that the count names, a
  -- fresh one, and the count grows by one; a full pool gives NULL and stays as it is. Either way
  -- the pool keeps its sizes and has no holes, and no context is written.
  pub lwnbd_new_context-IsPool :
      (cs : Contexts D)
      → IsPool cs
      → let (c, cs') = lwnbd_new_context cs in
        IsPool cs'
        × (cs'.contexts ≡ cs.contexts)
        × (((lwnbd_contexts_count cs < max_contexts)
              × (c ≡ some (lwnbd_contexts_count cs))
              × (lwnbd_contexts_count cs' ≡ lwnbd_contexts_count cs + 1))
            ⊎ ((lwnbd_contexts_count cs ≡ max_contexts) × (c ≡ none) × (cs' ≡ cs)))
  unfolding lwnbd_new_context lwnbd_contexts_count
  lwnbd_new_context-IsPool cs v =
      elim (Bool-cases (first_free cs.contexts_status == max_contexts)) [
        | inl full ↦ rw full (v, refl, inr (ground arith, refl, refl))
        | inr room ↦ rw room (
            let lt : first_free cs.contexts_status < max_contexts =
              ground (arith, first_free-le cs.contexts_status, v.status_size) in
            let step = first_free-set cs.contexts_status v.no_holes (omega arith) in
            (
              record {
                contexts_size = v.contexts_size;
                status_size =
                    length-set cs.contexts_status (first_free cs.contexts_status) created
                    ∙ v.status_size;
                no_holes = step.1;
              },
              refl,
              inl (lt, refl, step.0),
            ))
      ]

  -- No context before index `n` has the name.
  abbrev pub NoneBefore : List (Context D) → ℕ → List ℕ → Type 0
  NoneBefore cs n name =
      (j : ℕ) (c : Context D) → j < n → get_elem? cs j ≡ some c → same_prefix 32 c.name name ≡ false

  NoneBefore-cons :
      (c : Context D) (cs : List (Context D)) (n : ℕ) (name : List ℕ)
      → same_prefix 32 c.name name ≡ false
      → NoneBefore cs n name
      → NoneBefore (c ∷ cs) (suc n) name
  NoneBefore-cons c cs n name h rest zero c' lt e =
      subst (λ x. same_prefix 32 (get_name x) name ≡ false) e h
    where
      get_name : Option (Context D) → List ℕ
      get_name none = []
      get_name (some x) = x.name
  NoneBefore-cons c cs n name h rest (suc j) c' lt e = rest j c' (omega arith) e

  -- What a search of the first `n` contexts gives, its indices counted from `i`.
  abbrev pub FindSpec : List (Context D) → ℕ → ℕ → List ℕ → Option ℕ → Type 0
  FindSpec cs n i name none = NoneBefore cs n name
  FindSpec cs n i name (some k) =
      (j : ℕ) × (c : Context D) × (k ≡ i + j)
      × (j < n)
      × (get_elem? cs j ≡ some c)
      × (same_prefix 32 c.name name ≡ true)
      × NoneBefore cs j name

  FindSpec-cons :
      (c : Context D) (cs : List (Context D)) (n i : ℕ) (name : List ℕ) (r : Option ℕ)
      → same_prefix 32 c.name name ≡ false
      → FindSpec cs n (suc i) name r
      → FindSpec (c ∷ cs) (suc n) i name r
  FindSpec-cons c cs n i name none h spec = NoneBefore-cons c cs n name h spec
  FindSpec-cons c cs n i name (some k) h (j, d, e, lt, at, match, before) =
      (suc j, d, omega arith, omega arith, at, match, NoneBefore-cons c cs j name h before)

  find_context-FindSpec :
      (cs : List (Context D)) (n i : ℕ) (name : List ℕ)
      → FindSpec cs n i name (find_context cs n i name)
  unfolding find_context
  find_context-FindSpec cs zero i name = λ j c lt e. absurd (omega arith)
  find_context-FindSpec [] (suc n) i name = λ j c lt e. cc
  find_context-FindSpec (c ∷ cs) (suc n) i name = elim (Bool-cases (same_prefix 32 c.name name)) [
    | inl hit ↦ rw hit (0, c, omega arith, omega arith, refl, hit, λ j d lt e. absurd (omega arith))
    | inr miss ↦ rw miss (
        FindSpec-cons c cs n i name (find_context cs n (suc i) name) miss
          (find_context-FindSpec cs n (suc i) name))
  ]

  -- A lookup by name looks at the contexts in use and no others. It gives the first whose name
  -- agrees with the one sought in the first 32 bytes, and NULL only if there is none.
  pub lwnbd_get_context_string-FindSpec :
      (cs : Contexts D) (name : List ℕ)
      → FindSpec cs.contexts (lwnbd_contexts_count cs) 0 name (lwnbd_get_context_string cs name)
  unfolding lwnbd_get_context_string
  lwnbd_get_context_string-FindSpec cs name =
      find_context-FindSpec cs.contexts (lwnbd_contexts_count cs) 0 name

  -- The count is read off the status array alone.
  pub contexts_count_of_status :
      (a b : Contexts D)
      → a.contexts_status ≡ b.contexts_status
      → lwnbd_contexts_count a ≡ lwnbd_contexts_count b
  unfolding lwnbd_contexts_count
  contexts_count_of_status a b e = ap first_free e

  -- In a pool no more contexts are in use than there are.
  pub contexts_count_fits :
      (cs : Contexts D) → IsPool cs → lwnbd_contexts_count cs ≤ length cs.contexts
  unfolding lwnbd_contexts_count
  contexts_count_fits cs v =
      omega (arith, first_free-le cs.contexts_status, v.contexts_size, v.status_size)
