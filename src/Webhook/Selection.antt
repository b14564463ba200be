-- ===== src/Webhook/Selection.antt =====
-- The profiles that select a Pod, and the first of them by name (internal/webhook/v1/pod_webhook.go).
use netbird_operator.Prelude.{
  arith, ◌≡◌, ◌⊎◌, refl, ap, Option, ◌∙◌, inl, inr, Bool, true, false, none, some, List, [], ◌∷◌,
  Bool-cases, Str,
}
use netbird_operator.Runtime.{Result-cases, ok}
use netbird_operator.Runtime.Yields.{pure-Yields}
use netbird_operator.Webhook.{
  select, SidecarProfile, Injector, str_leb, selected, matching_profiles, pick,
}

-- The profile at some place of a list.
abbrev pub IsIn : {A : Type 0} → A → List A → Type 0
IsIn x [] = ⊥
IsIn x (y ∷ ys) = (x ≡ y) ⊎ IsIn x ys

module _ {S O : Type 0} (inj : Injector S O) where
  -- What `slices.SortFunc` documents: the same elements, in the order of their names.
  pub record Sorts : Type 0 where
    pub keeps :
        (ps : List (SidecarProfile S O)) (p : SidecarProfile S O)
        → IsIn p (inj.sort_profiles ps)
        → IsIn p ps
    pub has :
        (ps : List (SidecarProfile S O)) (p : SidecarProfile S O)
        → IsIn p ps
        → IsIn p (inj.sort_profiles ps)
    pub least :
        (ps rest : List (SidecarProfile S O)) (p q : SidecarProfile S O)
        → inj.sort_profiles ps ≡ p ∷ rest
        → IsIn q (p ∷ rest)
        → str_leb p.name q.name ≡ true

  str_leb_refl : (s : Str) → str_leb s s ≡ true
  unfolding str_leb
  str_leb_refl [] = refl
  str_leb_refl (a ∷ s) = ground (arith, str_leb_refl s)

  -- No profile of the list has a smaller name.
  abbrev pub IsLeast : SidecarProfile S O → List (SidecarProfile S O) → Type 0
  IsLeast p ps = (q : SidecarProfile S O) → IsIn q ps → str_leb p.name q.name ≡ true

  -- Of some matching profiles, the chosen one is among them and has the least name.
  pub pick-IsLeast :
      Sorts
      → (p : SidecarProfile S O) (ps : List (SidecarProfile S O))
      → (f : SidecarProfile S O) × (pick inj (p ∷ ps) ≡ some f)
        × IsIn f (p ∷ ps)
        × IsLeast f (p ∷ ps)
  unfolding pick
  pick-IsLeast s p [] = (p, refl, inl refl, only)
    where
      only : IsLeast p (p ∷ [])
      only q (inl e) = rw e (str_leb_refl p.name)
      only q (inr m) = absurd m
  pick-IsLeast s p (r ∷ rs) = go (inj.sort_profiles (p ∷ (r ∷ rs))) refl
    where
      go :
          (sorted : List (SidecarProfile S O))
          → inj.sort_profiles (p ∷ (r ∷ rs)) ≡ sorted
          → (f : SidecarProfile S O) × (pick inj (p ∷ (r ∷ rs)) ≡ some f)
            × IsIn f (p ∷ (r ∷ rs))
            × IsLeast f (p ∷ (r ∷ rs))
      go [] e = let there = s.has (p ∷ (r ∷ rs)) p (inl refl) in absurd (rw e at there)
      go (f ∷ fs) e = (
        f,
        rw (e, pick) refl,
        s.keeps (p ∷ (r ∷ rs)) f (rw e (inl refl)),
        λ q m.
            let there = s.has (p ∷ (r ∷ rs)) q m in s.least (p ∷ (r ∷ rs)) fs f q e (rw e at there),
      )

  -- The selector is left out, selects everything, or matches the labels.
  abbrev pub Matches : Option S → List (Str × Str) → Type 0
  Matches none labels = Unit
  Matches (some s) labels =
      (inj.is_blank s ≡ true)
      ⊎ ((matches : List (Str × Str) → Bool) × (inj.selects s ≡ ok matches)
          × (matches labels ≡ true))

  -- The profile is for a Pod with these labels.
  abbrev pub Selects : SidecarProfile S O → List (Str × Str) → Type 0
  Selects p labels = Matches p.pod_selector labels

  select-Matches :
      (p : SidecarProfile S O) (o : Option S) (labels : List (Str × Str))
      → select inj p o labels ≡ ok true
      → Matches o labels
  select-Matches p none labels h = tt
  select-Matches p (some s) labels h = elim (Bool-cases (inj.is_blank s)) [
    | inl blank ↦ inl blank
    | inr set ↦ elim (Result-cases (inj.selects s)) [
      | inr (x, e) ↦ let failed = rw (set, e) at h in absurd (ground arith)
      | inl (matches, e) ↦ let found = rw (set, e) at h in inr (matches, e, ground arith)
    ]
  ]

  select_never :
      (p : SidecarProfile S O) (o : Option S) (labels : List (Str × Str))
      → select inj p o labels ≡ ok false
      → ¬ Matches o labels
  select_never p none labels h m = absurd (ground arith)
  select_never p (some s) labels h (inl blank) = let found = rw blank at h in absurd (ground arith)
  select_never p (some s) labels h (inr (matches, e, m)) = elim (Bool-cases (inj.is_blank s)) [
    | inl blank ↦ let found = rw blank at h in absurd (ground arith)
    | inr set ↦ let found = rw (set, e, m) at h in absurd (ground arith)
  ]

  -- Some profiles are those of a list that select the labels.
  abbrev pub IsSelection :
      List (SidecarProfile S O) → List (Str × Str) → List (SidecarProfile S O) → Type 0
  IsSelection ps labels ms =
      ((p : SidecarProfile S O) → IsIn p ms → IsIn p ps × Selects p labels)
      × ((p : SidecarProfile S O) → IsIn p ps → Selects p labels → IsIn p ms)

  selected-first :
      (q : SidecarProfile S O) (qs rest : List (SidecarProfile S O)) (labels : List (Str × Str))
      → Selects q labels
      → IsSelection qs labels rest
      → IsSelection (q ∷ qs) labels (q ∷ rest)
  selected-first q qs rest labels chosen (sound, complete) = (sound', complete')
    where
      sound' : (p : SidecarProfile S O) → IsIn p (q ∷ rest) → IsIn p (q ∷ qs) × Selects p labels
      sound' p (inl e) = (inl e, rw e chosen)
      sound' p (inr m) = let (i, s) = sound p m in (inr i, s)

      complete' : (p : SidecarProfile S O) → IsIn p (q ∷ qs) → Selects p labels → IsIn p (q ∷ rest)
      complete' p (inl e) s = inl e
      complete' p (inr m) s = inr (complete p m s)

  selected-rest :
      (q : SidecarProfile S O) (qs rest : List (SidecarProfile S O)) (labels : List (Str × Str))
      → ¬ Selects q labels
      → IsSelection qs labels rest
      → IsSelection (q ∷ qs) labels rest
  selected-rest q qs rest labels passed (sound, complete) = (sound', complete')
    where
      sound' : (p : SidecarProfile S O) → IsIn p rest → IsIn p (q ∷ qs) × Selects p labels
      sound' p m = let (i, s) = sound p m in (inr i, s)

      complete' : (p : SidecarProfile S O) → IsIn p (q ∷ qs) → Selects p labels → IsIn p rest
      complete' p (inl e) s = absurd (passed (rw e at s))
      complete' p (inr m) s = complete p m s

  pub matching_profiles-IsSelection :
      (ps ms : List (SidecarProfile S O)) (labels : List (Str × Str))
      → matching_profiles inj ps labels ≡ ok ms
      → IsSelection ps labels ms
  unfolding matching_profiles
  matching_profiles-IsSelection [] ms labels h =
      pure-Yields (IsSelection [] labels) [] (λ p m. absurd m, λ p m. absurd m) tt ms h
  matching_profiles-IsSelection (q ∷ qs) ms labels h = elim (Result-cases (selected inj q labels)) [
    | inr (x, e) ↦ let failed = rw (e, matching_profiles) at h in absurd (ground arith)
    | inl (b, e) ↦ elim (Result-cases (matching_profiles inj qs labels)) [
      | inr (x, f) ↦ let failed = rw (e, f, matching_profiles) at h in absurd (ground arith)
      | inl (rest, f) ↦
          let others = matching_profiles-IsSelection qs rest labels f in
          elim (Bool-cases b) [
            | inl chosen ↦
                pure-Yields (IsSelection (q ∷ qs) labels) (q ∷ rest)
                  (selected-first q qs rest labels
                    (select-Matches q q.pod_selector labels (e ∙ ap ok chosen)) others)
                  tt ms (rw (e, f, chosen, matching_profiles) at h)
            | inr passed ↦
                pure-Yields (IsSelection (q ∷ qs) labels) rest
                  (selected-rest q qs rest labels
                    (select_never q q.pod_selector labels (e ∙ ap ok passed)) others)
                  tt ms (rw (e, f, passed, matching_profiles) at h)
          ]
    ]
  ]
