-- ===== src/Catalog.antt =====
-- What `Create`, `Update`, `SetEnabled`, `update` and `Delete` of user.go, output_group.go,
-- health_policy.go, node.go, webhook.go, smart_rule.go, config_template.go and
-- scene_template.go in management/ do alike to a collection whose entities have an id and a name that is unique.
pub mod Laws
pub mod Members
use kplayer_go.Prelude.{
  Bool, not, ◌&&◌, String, Option, none, some, List, [], ◌∷◌, ◌++◌, if◌then◌else◌,
}
use kplayer_go.Prelude.Lists.{any}
use kplayer_go.Model.{Err}
use kplayer_go.Result.{Txn, commit, keep, fail}
use kplayer_go.Collection.{find, put_first, cut_first, has_id}
use Err.{not_found, already_exists}

module _ {ℓ} {A : Type ℓ} (id name : A → String) where
  -- The loop over the names, and the append, of `Create`
  unfoldable pub add : A → List A → Txn (List A) A
  add x xs = if any (has_id name (name x)) xs then fail already_exists else commit (xs ++ x ∷ []) x

  -- Whether another entity has the name.
  abbrev pub taken : String → String → List A → Bool
  taken i n xs = any (λ x. not (has_id id i x) && has_id name n x) xs

  -- The two loops of `Update`, and the change through the pointer
  unfoldable pub replace : String → String → (A → A) → List A → Txn (List A) A
  replace i n fn xs = elim (find (has_id id i) xs) [
    | none ↦ fail not_found
    | some x ↦
        if taken i n xs
        then fail already_exists
        else commit (put_first (has_id id i) (fn x) xs) (fn x)
  ]

module _ {ℓ} {A : Type ℓ} (id : A → String) where
  -- `update`: the callback, then the stamp
  abbrev pub changed {κ} : {B : Type κ} → String → (A → A) → List A → Txn A B → Txn (List A) B
  changed i stamp xs (commit y b) = commit (put_first (has_id id i) (stamp y) xs) b
  changed i stamp xs (keep b) = keep b
  changed i stamp xs (fail e) = fail e

  unfoldable pub change {κ} :
      {B : Type κ} → String → (A → A) → (A → Txn A B) → List A → Txn (List A) B
  change i stamp fn xs = elim (find (has_id id i) xs) [
    | none ↦ fail not_found
    | some x ↦ changed i stamp xs (fn x)
  ]

  -- `Delete`
  unfoldable pub remove : String → List A → Txn (List A) (Unit {0})
  remove i xs = elim (find (has_id id i) xs) [
    | none ↦ fail not_found
    | some x ↦ commit (cut_first (has_id id i) xs) tt
  ]

-- A callback on one collection, as a callback on the document that holds it.
abbrev pub within {ℓ κ μ} : {D : Type ℓ} {A : Type κ} {B : Type μ} → (A → D) → Txn A B → Txn D B
within put (commit xs b) = commit (put xs) b
within put (keep b) = keep b
within put (fail e) = fail e

-- A callback that sets fields and returns nil.
abbrev pub setting {ℓ} : {A : Type ℓ} → (A → A) → A → Txn A (Unit {0})
setting fn x = commit (fn x) tt
