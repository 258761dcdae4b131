-- ===== src/Collection/Keys.antt =====
-- New items get keys of their own: `_handle_autoinc` and `container_add` of
-- fastapi_viewsets/collection_viewset.py.
use fastapi_viewsets.Prelude.{
  ℕ, suc, ◌+◌, ◌≤◌, ◌<◌, Text, insert, lookup-insert, list_eq, nat_eq, ◌==◌, if◌then◌else◌, List,
  [], ◌∷◌, ◌++◌, Bool, true, false, ◌≡◌, ◌≢◌, refl, arith, ap, sym, ◌∙◌, subst, All, All-append,
  Bool-cases, inl, inr, beq-eq, contains,
}
use fastapi_viewsets.Listing.Values.{Value, null, pos, negsuc, str, Record, read}
use fastapi_viewsets.Listing.Rows.{HasUniqueKeys}
use fastapi_viewsets.Collection.{
  CollectionViewSet, Answer, ok, read_only, truthy, larger, max_val, handle_autoinc, container_add,
  with_items,
}

larger-le : (m : ℕ) (v : Value) → m ≤ larger m v
larger-le m null = omega arith
larger-le m (pos n) = ground arith
larger-le m (negsuc n) = omega arith
larger-le m (str s) = omega arith

max_val-le : (field : Text) (m : ℕ) (items : List Record) → m ≤ max_val field m items
unfolding max_val
max_val-le field m [] = omega arith
max_val-le field m (item ∷ items) =
    omega
      (arith, larger-le m (read item field), max_val-le field (larger m (read item field)) items)

pos_of : Value → ℕ
pos_of (pos n) = n
pos_of null = 0
pos_of (negsuc n) = 0
pos_of (str s) = 0

pos_injective : (a b : ℕ) → pos a ≡ pos b → a ≡ b
unfolding pos_of
pos_injective a b h = ap pos_of h

larger-pos : (m n : ℕ) (v : Value) → v ≡ pos n → n ≤ larger m v
larger-pos m n null h = ground arith
larger-pos m n (pos k) h = ground (arith, pos_injective k n)
larger-pos m n (negsuc k) h = ground arith
larger-pos m n (str s) h = ground arith

-- No item holds a number past the largest one.
fresh_at :
    (field : Text) (m n : ℕ) (items : List Record)
    → max_val field m items < n
    → All (λ item. read item field ≢ pos n) items
unfolding max_val
fresh_at field m n [] h = tt
fresh_at field m n (item ∷ items) h = (
  (λ e. ground (
    arith,
    larger-pos m n (read item field) e,
    max_val-le field (larger m (read item field)) items,
  )),
  fresh_at field (larger m (read item field)) n items h,
)

read-insert :
    (name other : Text) (v : Value) (fields : Record)
    → read (insert name v fields) other ≡ (if name == other then v else read fields other)
unfolding read
read-insert name other v fields = ground (arith, lookup-insert name other v fields)

-- A field that holds a value keeps it.
handle_autoinc-kept :
    (names : List Text) (items : List Record) (fields : Record) (field : Text)
    → truthy (read fields field) ≡ true
    → read (handle_autoinc names items fields) field ≡ read fields field
unfolding handle_autoinc
handle_autoinc-kept [] items fields field h = refl
handle_autoinc-kept (name ∷ names) items fields field h =
    elim (Bool-cases (truthy (read fields name))) [
      | inl full ↦ rw full (handle_autoinc-kept names items fields field h)
      | inr empty ↦
          let v = pos (max_val name 0 items + 1) in
          let kept : read (insert name v fields) field ≡ read fields field =
            elim (Bool-cases (name == field)) [
              | inl alike ↦
                  let full : truthy (read fields name) ≡ true =
                    ap (λ k. truthy (read fields k)) (beq-eq name field alike) ∙ h in
                  absurd (ground (arith, full, empty))
              | inr differ ↦ read-insert name field v fields ∙ rw differ refl
            ] in
          rw empty (
            handle_autoinc-kept names items (insert name v fields) field (ap truthy kept ∙ h)
            ∙ kept)
    ]

truthy-suc : (n : ℕ) → truthy (pos (n + 1)) ≡ true
truthy-suc n =
    let next : suc n ≡ n + 1 = omega arith in subst (λ k. truthy (pos k) ≡ true) next refl

-- An empty field that is incremented gets the successor of the container's largest value.
pub handle_autoinc-fresh :
    (names : List Text) (items : List Record) (fields : Record) (field : Text)
    → contains field names ≡ true
    → truthy (read fields field) ≡ false
    → read (handle_autoinc names items fields) field ≡ pos (max_val field 0 items + 1)
unfolding handle_autoinc
handle_autoinc-fresh [] items fields field h empty = ground arith
handle_autoinc-fresh (name ∷ names) items fields field h empty =
    let v = pos (max_val name 0 items + 1) in
    elim (Bool-cases (name == field)) [
      | inl alike ↦
          let gone : truthy (read fields name) ≡ false =
            ap (λ k. truthy (read fields k)) (beq-eq name field alike) ∙ empty in
          let there : read (insert name v fields) field ≡ v =
            read-insert name field v fields ∙ rw alike refl in
          rw gone (
            handle_autoinc-kept names items (insert name v fields) field
              (ap truthy there ∙ truthy-suc (max_val name 0 items))
            ∙ there
            ∙ ap (λ k. pos (max_val k 0 items + 1)) (beq-eq name field alike))
      | inr differ ↦
          let later : contains field names ≡ true = rw differ at h in
          elim (Bool-cases (truthy (read fields name))) [
            | inl full ↦ rw full (handle_autoinc-fresh names items fields field later empty)
            | inr gone ↦
                let there : read (insert name v fields) field ≡ read fields field =
                  read-insert name field v fields ∙ rw differ refl in
                rw gone (
                  handle_autoinc-fresh names items (insert name v fields) field later
                    (ap truthy there ∙ empty))
          ]
    ]

append-HasUniqueKeys :
    (pk_field : Text) (items : List Record) (item : Record)
    → HasUniqueKeys pk_field items
    → All (λ other. read other pk_field ≢ read item pk_field) items
    → HasUniqueKeys pk_field (items ++ item ∷ [])
append-HasUniqueKeys pk_field [] item u n = (tt, tt)
append-HasUniqueKeys pk_field (first ∷ items) item u n = (
  All-append (λ other. read first pk_field ≢ read other pk_field) items (item ∷ []) u.0 (n.0, tt),
  append-HasUniqueKeys pk_field items item u.1 n.1,
)

-- Where the primary key is a field that is incremented and no two items have the same key: after
-- `container_add` of an item whose key is empty, no two items have the same key.
pub container_add-HasUniqueKeys :
    (c : CollectionViewSet) (fields : Record)
    → contains c.pk_field c.autoinc ≡ true
    → truthy (read fields c.pk_field) ≡ false
    → HasUniqueKeys c.pk_field c.container
    → HasUniqueKeys c.pk_field (container_add fields c).0.container
unfolding container_add
container_add-HasUniqueKeys c fields counted empty unique =
    let added = handle_autoinc c.autoinc c.container fields in
    let largest = max_val c.pk_field 0 c.container in
    let key : read added c.pk_field ≡ pos (largest + 1) =
      handle_autoinc-fresh c.autoinc c.container fields c.pk_field counted empty in
    let fresh : All (λ other. read other c.pk_field ≢ read added c.pk_field) c.container =
      subst (λ v. All (λ other. read other c.pk_field ≢ v) c.container) (sym key)
        (fresh_at c.pk_field 0 (largest + 1) c.container (omega arith)) in
    let unique_after = append-HasUniqueKeys c.pk_field c.container added unique fresh in
    let answer : Bool → CollectionViewSet × Answer Record =
      λ b. if b then (with_items (c.container ++ added ∷ []) c, ok added) else (c, read_only) in
    elim (Bool-cases c.is_mutable) [
      | inr fixed ↦ subst (λ b. HasUniqueKeys c.pk_field (answer b).0.container) (sym fixed) unique
      | inl mutable ↦
          subst (λ b. HasUniqueKeys c.pk_field (answer b).0.container) (sym mutable) unique_after
    ]
