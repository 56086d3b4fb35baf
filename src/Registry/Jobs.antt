-- ===== src/Registry/Jobs.antt =====
-- registerJobForNamespace of app/queue.go: a batch is checked whole before any job is registered.
use go_hypercube.Common.{
  ◌≡◌, refl, ◌≢◌, ◌↔◌, Option, none, some, List, [], ◌∷◌, ==_iff, Text, text_eq, arith, All, subst,
}
use go_hypercube.Namespaced.{Namespaced}
use go_hypercube.Registry.{ok, register_all, validate_jobs, present, register_jobs}
use go_hypercube.Registry.Keys.{IsKeyed, register_all_lem}

module _ {J : Type 0} (name_of : J → Text) where
  -- The job is not nil and has a name.
  abbrev pub IsNamed : Option J → Type 0
  IsNamed none = ⊥
  IsNamed (some j) = name_of j ≢ []

  validate_jobs-none : (js : List (Option J)) → (validate_jobs name_of js ≡ none) ↔ All IsNamed js
  unfolding validate_jobs
  validate_jobs-none [] = (λ h. tt, λ h. refl)
  validate_jobs-none (none ∷ js) = (λ h. cc, λ h. absurd h.0)
  validate_jobs-none (some j ∷ js) = ground (arith, ==_iff (name_of j) [], validate_jobs-none js)

  register_jobs-none :
      (namespace : Text) (js : List (Option J)) (s : List (Namespaced J))
      → validate_jobs name_of js ≡ none
      → register_jobs name_of namespace js s
        ≡ ok (register_all name_of namespace (present name_of js) s)
  unfolding register_jobs
  register_jobs-none namespace js s h = ground arith

  register_jobs-eq-ok :
      (namespace : Text) (js : List (Option J)) (s s' : List (Namespaced J))
      → register_jobs name_of namespace js s ≡ ok s'
      → validate_jobs name_of js ≡ none
  unfolding register_jobs
  register_jobs-eq-ok namespace js s s' h = ground arith

  -- A batch of jobs is registered exactly when none of them is nil or has an empty name, and then
  -- no key is held twice.
  pub register_jobs_lem :
      (namespace : Text) (js : List (Option J)) (s : List (Namespaced J))
      → IsKeyed name_of s
      → (All IsNamed js
          → register_jobs name_of namespace js s
            ≡ ok (register_all name_of namespace (present name_of js) s))
        × ((s' : List (Namespaced J))
            → register_jobs name_of namespace js s ≡ ok s'
            → All IsNamed js × IsKeyed name_of s')
  register_jobs_lem namespace js s h = (
    λ named. register_jobs-none namespace js s ((validate_jobs-none js).1 named),
    λ s' eq.
        let free = register_jobs-eq-ok namespace js s s' eq in
        let kept : ok (register_all name_of namespace (present name_of js) s) ≡ ok s' =
          cc (register_jobs-none namespace js s free, eq) in
        let same : register_all name_of namespace (present name_of js) s ≡ s' = cc kept in
        (
          (validate_jobs-none js).0 free,
          subst (IsKeyed name_of) same
              (register_all_lem name_of namespace (present name_of js) s h).0,
        ),
  )
