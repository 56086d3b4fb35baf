-- ===== src/Scheduler/Tags.antt =====
-- The tag that names a schedule's owner in scheduler/scheduler.go is unambiguous.
use go_hypercube.Common.{
  ℕ, ◌≡◌, ◌↔◌, ◌⊎◌, inl, inr, refl, true, false, List, [], ◌∷◌, ◌==◌, ==_iff, Text, text_eq, arith,
  contains, Bool-cases, nat_eq,
}
use go_hypercube.Parser.Strings.{codes}
use go_hypercube.Parser.Suffix.{has_prefix-append}
use go_hypercube.Scheduler.{CronJob, namespace_tag, any_reserved, has_id, owned_by}

namespace_tag-injective : (a b : Text) → namespace_tag a ≡ namespace_tag b → a ≡ b
namespace_tag-injective a b h = cc (h)

contains-any_reserved :
    (tags : List Text) (namespace : Text)
    → any_reserved tags ≡ false
    → contains tags (namespace_tag namespace) ≡ false
unfolding any_reserved contains
contains-any_reserved [] namespace h = refl
contains-any_reserved (tag ∷ tags) namespace h = ground (
  arith,
  contains-any_reserved tags namespace,
  ==_iff tag (namespace_tag namespace),
  has_prefix-append (codes "namespace:") namespace,
)

-- Of a schedule whose other tags are not reserved, the tag names its owner.
pub contains-namespace_tag :
    (owner namespace : Text) (tags : List Text)
    → any_reserved tags ≡ false
    → contains (namespace_tag owner ∷ tags) (namespace_tag namespace) ≡ (owner == namespace)
unfolding contains
contains-namespace_tag owner namespace tags h = ground (
  arith,
  contains-any_reserved tags namespace h,
  ==_iff owner namespace,
  ==_iff (namespace_tag owner) (namespace_tag namespace),
  namespace_tag-injective owner namespace,
)

abbrev pub IsIn : CronJob → List CronJob → Type 0
IsIn j [] = ⊥
IsIn j (k ∷ ks) = (j ≡ k) ⊎ IsIn j ks

pub IsIn-has_id :
    (js : List CronJob) (id : ℕ) → has_id js id ≡ true → (j : CronJob) × IsIn j js × (j.job_id ≡ id)
unfolding has_id
IsIn-has_id [] id h = absurd (cc (h))
IsIn-has_id (j ∷ js) id h = elim (Bool-cases (j.job_id == id)) [
  | inl here ↦ (j, inl refl, (==_iff j.job_id id).0 here)
  | inr there ↦ let (k, i, e) = IsIn-has_id js id (cc (h, there)) in (k, inr i, e)
]

pub has_id-IsIn : (js : List CronJob) (j : CronJob) → IsIn j js → has_id js j.job_id ≡ true
unfolding has_id
has_id-IsIn [] j h = absurd h
has_id-IsIn (k ∷ js) j (inl e) = ground (arith, ==_iff k.job_id j.job_id)
has_id-IsIn (k ∷ js) j (inr i) = ground (arith, has_id-IsIn js j i)

pub IsIn-owned_by :
    (namespace : Text) (js : List CronJob) (j : CronJob)
    → IsIn j (owned_by namespace js)
      ↔ (IsIn j js × (contains j.tags (namespace_tag namespace) ≡ true))
unfolding owned_by
IsIn-owned_by namespace [] j = (λ h. absurd h, λ h. absurd h.0)
IsIn-owned_by namespace (k ∷ js) j = ground (arith, IsIn-owned_by namespace js j)
