-- ===== src/Catalog/Laws.antt =====
-- A collection with unique ids and names stays one.
use kplayer_go.Prelude.{
  ◌≡◌, refl, true, false, String, some, List, [], ◌∷◌, arith, Bool-cases, Option-cases, inl, inr,
  sym,
}
use mathlib.Core.Path.{subst}
use kplayer_go.Prelude.Lists.{any, All, All-append}
use kplayer_go.Result.{Txn, commit, keep, fail, outcome}
use kplayer_go.Collection.{find, put_first, cut_first, has_id}
use kplayer_go.Collection.Laws.{find-passes, All-put_first, All-cut_first, All-find}
use kplayer_go.Collection.Distinct.{
  Distinct, Distinct-append, Distinct-cut_first, Distinct-put_first, Distinct-put_same,
  find-own_name,
}
use kplayer_go.Catalog.{add, taken, replace, changed, change, setting, remove, within}

outcome-within {ℓ κ μ} :
    {D : Type ℓ} {A : Type κ} {B : Type μ} (put : A → D) (read : D → A)
    → ((xs : A) → read (put xs) ≡ xs)
    → (d : D) (t : Txn A B) → read (outcome d (within put t)) ≡ outcome (read d) t
outcome-within put read h d (commit xs b) = h xs
outcome-within put read h d (keep b) = refl
outcome-within put read h d (fail e) = refl

module _ {ℓ} {A : Type ℓ} (id name : A → String) (P : A → Type 0) where
  -- No two entities share an id or a name, and each of them has the property.
  pub record Kept (xs : List A) : Type ℓ where
    pub ids : Distinct id xs
    pub names : Distinct name xs
    pub each : All P xs

  add-Kept :
      (x : A) (xs : List A)
      → any (has_id id (id x)) xs ≡ false
      → P x
      → Kept xs
      → Kept (outcome xs (add id name x xs))
  unfolding add
  add-Kept x xs new good k = elim (Bool-cases (any (has_id name (name x)) xs)) [
    | inl e ↦ rw e k
    | inr e ↦ rw e (record {
      ids = Distinct-append id xs x new k.ids;
      names = Distinct-append name xs x e k.names;
      each = All-append P xs (x ∷ []) k.each (good, tt);
    })
  ]

  put-Kept :
      (i : String) (y : A) (xs : List A)
      → has_id id i y ≡ true
      → taken id name i (name y) xs ≡ false
      → P y
      → Kept xs
      → Kept (put_first (has_id id i) y xs)
  put-Kept i y xs own free good k = record {
    ids = Distinct-put_same id i y own xs k.ids;
    names = Distinct-put_first id name i y xs k.ids free k.names;
    each = All-put_first (has_id id i) P y xs k.each good;
  }

  replace-Kept :
      (i n : String) (fn : A → A) (xs : List A)
      → ((x : A) → id (fn x) ≡ id x)
      → ((x : A) → name (fn x) ≡ n)
      → ((x : A) → P x → P (fn x))
      → Kept xs
      → Kept (outcome xs (replace id name i n fn xs))
  unfolding replace
  replace-Kept i n fn xs same_id new_name good k = elim (Option-cases (find (has_id id i) xs)) [
    | inl none_there ↦
        let same : xs ≡ outcome xs (replace id name i n fn xs) = ground (arith, none_there) in
        subst Kept same k
    | inr (x, f) ↦ elim (Bool-cases (taken id name i n xs)) [
      | inl t ↦
          let same : xs ≡ outcome xs (replace id name i n fn xs) = ground (arith, f, t) in
          subst Kept same k
      | inr t ↦
          let same : put_first (has_id id i) (fn x) xs ≡ outcome xs (replace id name i n fn xs) =
            ground (arith, f, t) in
          let own : has_id id i (fn x) ≡ true =
            ground (arith, same_id x, find-passes (has_id id i) xs x f) in
          subst Kept same (
            put-Kept i (fn x) xs own
              (subst (λ m. taken id name i m xs ≡ false) (sym (new_name x)) t)
              (good x (All-find (has_id id i) P xs x k.each f)) k)
    ]
  ]

  -- The callback keeps the id and the name.
  abbrev pub Keeps {κ} : {B : Type κ} → (A → A) → (A → Txn A B) → Type (ℓ ⊔ κ)
  Keeps {B = B} stamp fn =
      (x y : A) (b : B)
      → fn x ≡ commit y b
      → P x
      → (id (stamp y) ≡ id x) × (name (stamp y) ≡ name x) × P (stamp y)

  changed-Kept {κ} :
      {B : Type κ} (i : String) (stamp : A → A) (xs : List A) (t : Txn A B) (x : A)
      → find (has_id id i) xs ≡ some x
      → Kept xs
      → ((y : A) (b : B)
          → t ≡ commit y b
          → (id (stamp y) ≡ id x) × (name (stamp y) ≡ name x) × P (stamp y))
      → Kept (outcome xs (changed id i stamp xs t))
  changed-Kept i stamp xs (commit y b) x f k h =
      let (same_id, same_name, good) = h y b refl in
      put-Kept i (stamp y) xs (ground (arith, same_id, find-passes (has_id id i) xs x f))
        (subst (λ m. taken id name i m xs ≡ false) (sym same_name)
          (find-own_name id name i xs x k.names f))
        good k
  changed-Kept i stamp xs (keep b) x f k h = k
  changed-Kept i stamp xs (fail e) x f k h = k

  change-Kept {κ} :
      {B : Type κ} (i : String) (stamp : A → A) (fn : A → Txn A B) (xs : List A)
      → Keeps stamp fn
      → Kept xs
      → Kept (outcome xs (change id i stamp fn xs))
  unfolding change
  change-Kept i stamp fn xs keeps k = elim (Option-cases (find (has_id id i) xs)) [
    | inl none_there ↦
        let same : xs ≡ outcome xs (change id i stamp fn xs) = ground (arith, none_there) in
        subst Kept same k
    | inr (x, f) ↦
        let same : outcome xs (changed id i stamp xs (fn x))
            ≡ outcome xs (change id i stamp fn xs) =
          ground (arith, f) in
        subst Kept same (
          changed-Kept i stamp xs (fn x) x f k
            (λ y b h. keeps x y b h (All-find (has_id id i) P xs x k.each f)))
  ]

  remove-Kept : (i : String) (xs : List A) → Kept xs → Kept (outcome xs (remove id i xs))
  unfolding remove
  remove-Kept i xs k = elim (Option-cases (find (has_id id i) xs)) [
    | inl none_there ↦
        let same : xs ≡ outcome xs (remove id i xs) = ground (arith, none_there) in
        subst Kept same k
    | inr (x, f) ↦
        let same : cut_first (has_id id i) xs ≡ outcome xs (remove id i xs) = ground (arith, f) in
        subst Kept same (record {
          ids = Distinct-cut_first id (has_id id i) xs k.ids;
          names = Distinct-cut_first name (has_id id i) xs k.names;
          each = All-cut_first (has_id id i) P xs k.each;
        })
  ]

  -- A callback that sets a field other than the id and the name.
  pub commit-Keeps {κ} :
      {B : Type κ} (stamp fn : A → A) (g : A → B)
      → ((x : A) → id (stamp (fn x)) ≡ id x)
      → ((x : A) → name (stamp (fn x)) ≡ name x)
      → ((x : A) → P x → P (stamp (fn x)))
      → Keeps stamp (λ x. commit (fn x) (g x))
  commit-Keeps stamp fn g same_id same_name good x y b h p =
      let same : fn x ≡ y = ground (arith, h) in
      subst (λ z. (id (stamp z) ≡ id x) × (name (stamp z) ≡ name x) × P (stamp z)) same
        (same_id x, same_name x, good x p)

  -- The same of the document that holds the collection.
  module _ {D : Type 0} (put : D → List A → D) (read : D → List A)
      (read-put : (d : D) (xs : List A) → read (put d xs) ≡ xs) where
    abbrev pub Holds : D → Type ℓ
    Holds d = Kept (read d)

    from_list {κ} :
        {B : Type κ} (d : D) (t : Txn (List A) B)
        → Kept (outcome (read d) t)
        → Holds (outcome d (within (put d) t))
    from_list d t k = subst Kept (sym (outcome-within (put d) read (read-put d) d t)) k

    pub add-Holds :
        (x : A) (d : D)
        → any (has_id id (id x)) (read d) ≡ false
        → P x
        → Holds d
        → Holds (outcome d (within (put d) (add id name x (read d))))
    add-Holds x d new good k = from_list d (add id name x (read d)) (add-Kept x (read d) new good k)

    pub replace-Holds :
        (i n : String) (fn : A → A) (d : D)
        → ((x : A) → id (fn x) ≡ id x)
        → ((x : A) → name (fn x) ≡ n)
        → ((x : A) → P x → P (fn x))
        → Holds d
        → Holds (outcome d (within (put d) (replace id name i n fn (read d))))
    replace-Holds i n fn d a b c k =
        from_list d (replace id name i n fn (read d)) (replace-Kept i n fn (read d) a b c k)

    pub change-Holds {κ} :
        {B : Type κ} (i : String) (stamp : A → A) (fn : A → Txn A B) (d : D)
        → Keeps stamp fn
        → Holds d
        → Holds (outcome d (within (put d) (change id i stamp fn (read d))))
    change-Holds i stamp fn d keeps k =
        from_list d (change id i stamp fn (read d)) (change-Kept i stamp fn (read d) keeps k)

    pub set-Holds :
        (i : String) (stamp fn : A → A) (d : D)
        → ((x : A) → id (stamp (fn x)) ≡ id x)
        → ((x : A) → name (stamp (fn x)) ≡ name x)
        → ((x : A) → P x → P (stamp (fn x)))
        → Holds d
        → Holds (outcome d (within (put d) (change id i stamp (setting fn) (read d))))
    set-Holds i stamp fn d a b c =
        change-Holds i stamp (setting fn) d (commit-Keeps stamp fn (λ x. tt) a b c)

    pub remove-Holds :
        (i : String) (d : D) → Holds d → Holds (outcome d (within (put d) (remove id i (read d))))
    remove-Holds i d k = from_list d (remove id i (read d)) (remove-Kept i (read d) k)
