-- ===== src/Plugins/Use.antt =====
-- UsePlugin of app/plugin.go: which batches of plugins an app takes.
use mathlib.Core.List.{map-append}
use go_hypercube.Common.{
  ◌≡◌, refl, ◌≢◌, ◌↔◌, ◌⊎◌, Bool, true, false, none, some, List, [], ◌∷◌, ◌++◌, map, ==_iff,
  ==_refl, Text, text_eq, contains, contains-cons, contains-nil, All, IsUnique, IsApart,
  IsUnique-append, arith, subst, sym,
}
use go_hypercube.Plugins.{
  Plugin, name, Semver, host_app_namespace, UseError, check_names, use_plugin,
}

module _ (semver : Semver) where
  -- The plugin has a name that is not reserved, and a version that is valid or empty.
  abbrev pub IsAcceptable : Plugin → Type 0
  IsAcceptable p =
      (name p ≢ [])
      × (name p ≢ host_app_namespace)
      × ((p.version ≡ []) ⊎ (semver.is_valid p.version ≡ true))

  -- What the loop asks of the batch, name by name.
  abbrev IsNew : List Text → List Plugin → Type 0
  IsNew seen [] = Unit
  IsNew seen (p ∷ ps) = IsAcceptable p × (contains seen (name p) ≡ false) × IsNew (name p ∷ seen) ps

  check_names-none :
      (seen : List Text) (ps : List Plugin) → (check_names semver seen ps ≡ none) ↔ IsNew seen ps
  unfolding check_names
  check_names-none seen [] = (λ h. tt, λ h. refl)
  check_names-none seen (p ∷ ps) = ground (
    arith,
    ==_iff (name p) [],
    ==_iff (name p) host_app_namespace,
    ==_iff p.version [],
    check_names-none (name p ∷ seen) ps,
  )

  abbrev IsWelcome : List Text → List Plugin → Type 0
  IsWelcome seen ps = All IsAcceptable ps × IsUnique (map name ps) × IsApart seen (map name ps)

  IsWelcome-of_IsNew : (seen : List Text) (ps : List Plugin) → IsNew seen ps → IsWelcome seen ps
  IsWelcome-of_IsNew seen [] h = (tt, tt, λ k on. absurd (cc (on, contains-nil k)))
  IsWelcome-of_IsNew seen (p ∷ ps) h =
      let (good, unique, apart) = IsWelcome-of_IsNew (name p ∷ seen) ps h.2 in
      (
        (h.0, good),
        (
          ground (arith, apart (name p), contains-cons (name p) seen (name p), ==_refl (name p)),
          unique,
        ),
        λ k on. ground (
          arith,
          contains-cons (name p) (map name ps) k,
          contains-cons (name p) seen k,
          apart k,
          ==_iff (name p) k,
        ),
      )

  IsNew-of_IsWelcome : (seen : List Text) (ps : List Plugin) → IsWelcome seen ps → IsNew seen ps
  IsNew-of_IsWelcome seen [] h = tt
  IsNew-of_IsWelcome seen (p ∷ ps) h = (
    h.0.0,
    ground (arith, h.2 (name p), contains-cons (name p) (map name ps) (name p), ==_refl (name p)),
    IsNew-of_IsWelcome (name p ∷ seen) ps (
      h.0.1,
      h.1.1,
      λ k on. ground (
        arith,
        contains-cons (name p) (map name ps) k,
        contains-cons (name p) seen k,
        h.2 k,
        h.1.0,
        ==_iff (name p) k,
      ),
    ),
  )

  use_plugin-none :
      (plugins new : List Plugin)
      → check_names semver (map name plugins) new ≡ none
      → use_plugin semver false plugins new ≡ (plugins ++ new, none)
  unfolding use_plugin
  use_plugin-none plugins new h = ground arith

  use_plugin-taken :
      (did_setup : Bool) (plugins new ps : List Plugin)
      → use_plugin semver did_setup plugins new ≡ (ps, none)
      → (did_setup ≡ false)
        × (check_names semver (map name plugins) new ≡ none)
        × (ps ≡ plugins ++ new)
  unfolding use_plugin
  use_plugin-taken did_setup plugins new ps h = ground arith

  use_plugin-refused :
      (did_setup : Bool) (plugins new ps : List Plugin) (e : UseError)
      → use_plugin semver did_setup plugins new ≡ (ps, some e)
      → ps ≡ plugins
  unfolding use_plugin
  use_plugin-refused did_setup plugins new ps e h = ground arith

  -- UsePlugin takes a batch, behind the plugins it has, exactly when the app is not set up, every
  -- plugin of the batch is acceptable and no name is then held twice; otherwise the app keeps its
  -- plugins.
  pub use_plugin_lem :
      (plugins new : List Plugin)
      → IsUnique (map name plugins)
      → (All IsAcceptable new
          → IsUnique (map name (plugins ++ new))
          → use_plugin semver false plugins new ≡ (plugins ++ new, none))
        × ((did_setup : Bool) (ps : List Plugin)
            → use_plugin semver did_setup plugins new ≡ (ps, none)
            → (did_setup ≡ false)
              × (ps ≡ plugins ++ new)
              × All IsAcceptable new
              × IsUnique (map name (plugins ++ new)))
        × ((did_setup : Bool) (ps : List Plugin) (e : UseError)
            → use_plugin semver did_setup plugins new ≡ (ps, some e)
            → ps ≡ plugins)
  use_plugin_lem plugins new u = (
    λ good once.
        let names = subst IsUnique (map-append name plugins new) once in
        let (_, unique, apart) = (IsUnique-append (map name plugins) (map name new)).0 names in
        use_plugin-none plugins new (
          (check_names-none (map name plugins) new).1
            (IsNew-of_IsWelcome (map name plugins) new (good, unique, apart))),
    λ did_setup ps h.
        let (before, free, is) = use_plugin-taken did_setup plugins new ps h in
        let (good, unique, apart) =
          IsWelcome-of_IsNew (map name plugins) new
            ((check_names-none (map name plugins) new).0 free) in
        (
          before,
          is,
          good,
          subst IsUnique (sym (map-append name plugins new))
              ((IsUnique-append (map name plugins) (map name new)).1 (u, unique, apart)),
        ),
    λ did_setup ps e h. use_plugin-refused did_setup plugins new ps e h,
  )
