-- ===== src/Collection/Items.antt =====
-- What the operations of `CollectionViewSet` do to the items.
use fastapi_viewsets.Prelude.{
  Text, list_eq, nat_eq, if◌then◌else◌, List, [], ◌∷◌, Option, none, some, Bool, true, false, ◌≡◌,
  ◌≢◌, refl, arith, ap, sym, ◌∙◌, subst, All, Bool-cases, inl, inr, nat_beq_iff, beq-eq, beq_refl,
}
use fastapi_viewsets.Listing.Values.{Value, null, pos, negsuc, str, Record, read}
use fastapi_viewsets.Listing.Rows.{HasUniqueKeys}
use fastapi_viewsets.Collection.{
  value_beq, CollectionViewSet, Data, Answer, ok, not_found, read_only, updated, find, update_items,
  delete_items, container_retrieve, container_update, container_delete, update_found, delete_found,
  found_or, with_items,
}

pub value_beq_refl : (v : Value) → value_beq v v ≡ true
value_beq_refl null = refl
value_beq_refl (pos n) = (nat_beq_iff n n).1 refl
value_beq_refl (negsuc n) = (nat_beq_iff n n).1 refl
value_beq_refl (str s) = beq_refl s

pub value_beq-eq : (v w : Value) → value_beq v w ≡ true → v ≡ w
value_beq-eq null null h = refl
value_beq-eq null (pos n) h = ground arith
value_beq-eq null (negsuc n) h = ground arith
value_beq-eq null (str s) h = ground arith
value_beq-eq (pos n) null h = ground arith
value_beq-eq (pos n) (pos m) h = ap pos ((nat_beq_iff n m).0 h)
value_beq-eq (pos n) (negsuc m) h = ground arith
value_beq-eq (pos n) (str s) h = ground arith
value_beq-eq (negsuc n) null h = ground arith
value_beq-eq (negsuc n) (pos m) h = ground arith
value_beq-eq (negsuc n) (negsuc m) h = ap negsuc ((nat_beq_iff n m).0 h)
value_beq-eq (negsuc n) (str s) h = ground arith
value_beq-eq (str s) null h = ground arith
value_beq-eq (str s) (pos m) h = ground arith
value_beq-eq (str s) (negsuc m) h = ground arith
value_beq-eq (str s) (str t) h = ap str (beq-eq s t h)

or_else : Record → Option Record → Record
or_else r none = r
or_else r (some q) = q

some_injective : {a b : Record} → some a ≡ some b → a ≡ b
unfolding or_else
some_injective {a} e = ap (or_else a) e

find_absent :
    (pk_field : Text) (pk : Value) (items : List Record)
    → All (λ item. pk ≢ read item pk_field) items
    → find pk_field pk items ≡ none
unfolding find
find_absent pk_field pk [] h = refl
find_absent pk_field pk (item ∷ items) h = elim (Bool-cases (value_beq (read item pk_field) pk)) [
  | inl hit ↦ absurd (h.0 (sym (value_beq-eq (read item pk_field) pk hit)))
  | inr miss ↦ rw miss (find_absent pk_field pk items h.1)
]

-- After a deletion the key is gone, where no two items have the same key.
pub find-delete_items :
    (pk_field : Text) (pk : Value) (items : List Record)
    → HasUniqueKeys pk_field items
    → find pk_field pk (delete_items pk_field pk items) ≡ none
unfolding find delete_items
find-delete_items pk_field pk [] u = refl
find-delete_items pk_field pk (item ∷ items) u =
    elim (Bool-cases (value_beq (read item pk_field) pk)) [
      | inl hit ↦ rw hit (
          find_absent pk_field pk items (
            subst (λ v. All (λ other. v ≢ read other pk_field) items)
              (value_beq-eq (read item pk_field) pk hit) u.0))
      | inr miss ↦ rw (miss, miss) (find-delete_items pk_field pk items u.1)
    ]

-- A deletion leaves every other key's item.
pub find-delete_other :
    (pk_field : Text) (pk other : Value) (items : List Record)
    → value_beq pk other ≡ false
    → find pk_field other (delete_items pk_field pk items) ≡ find pk_field other items
unfolding find delete_items
find-delete_other pk_field pk other [] d = refl
find-delete_other pk_field pk other (item ∷ items) d =
    elim (Bool-cases (value_beq (read item pk_field) pk)) [
      | inl hit ↦
          let away : value_beq (read item pk_field) other ≡ false =
            ap (λ v. value_beq v other) (value_beq-eq (read item pk_field) pk hit) ∙ d in
          rw (hit, away) refl
      | inr miss ↦ rw miss (ground (arith, find-delete_other pk_field pk other items d))
    ]

-- An update that keeps the key is what the key then finds, and no other key finds anything new.
pub find-update_items :
    (pk_field : Text) (pk other : Value) (data_ : Data) (partial : Bool) (items : List Record)
    (item : Record)
    → find pk_field pk items ≡ some item
    → read (updated item data_ partial) pk_field ≡ pk
    → find pk_field other (update_items pk_field pk data_ partial items) ≡ (
        if value_beq pk other then some (updated item data_ partial) else find pk_field other items)
unfolding find update_items
find-update_items pk_field pk other data_ partial [] item f k = ground arith
find-update_items pk_field pk other data_ partial (first ∷ items) item f k =
    elim (Bool-cases (value_beq (read first pk_field) pk)) [
      | inl hit ↦
          let same : first ≡ item = some_injective (rw hit at f) in
          let kept : read (updated first data_ partial) pk_field ≡ pk =
            ap (λ r. read (updated r data_ partial) pk_field) same ∙ k in
          let moved : value_beq (read first pk_field) other ≡ value_beq pk other =
            ap (λ v. value_beq v other) (value_beq-eq (read first pk_field) pk hit) in
          rw hit (elim (Bool-cases (value_beq pk other)) [
            | inl own ↦ rw (kept, own) (ap (λ r. some (updated r data_ partial)) same)
            | inr away ↦ rw (kept, away, moved, away) refl
          ])
      | inr miss ↦
          let rest =
            find-update_items pk_field pk other data_ partial items item (rw miss at f) k in
          rw miss (elim (Bool-cases (value_beq pk other)) [
            | inl own ↦
                let gone : value_beq (read first pk_field) other ≡ false =
                  ap (λ v. value_beq (read first pk_field) v) (sym (value_beq-eq pk other own))
                  ∙ miss in
                rw gone rest
            | inr away ↦ ground (arith, rest)
          ])
    ]

answer_or : Record → Answer Record → Record
answer_or r (ok q) = q
answer_or r (not_found pk) = r
answer_or r read_only = r

found_or-some : (pk : Value) (o : Option Record) (a : Record) → found_or pk o ≡ ok a → o ≡ some a
unfolding answer_or
found_or-some pk none a h = ground arith
found_or-some pk (some b) a h = ap (λ r. some (answer_or a r)) h

container_update-found :
    (c : CollectionViewSet) (pk : Value) (data_ : Data) (partial : Bool) (item : Record)
    → c.is_mutable ≡ true
    → find c.pk_field pk c.container ≡ some item
    → container_update pk data_ partial c ≡ (
      with_items (update_items c.pk_field pk data_ partial c.container) c,
      ok (updated item data_ partial),
    )
unfolding container_update
container_update-found c pk data_ partial item mutable there =
    λ i. if mutable i then update_found (there i) pk data_ partial c else (c, read_only)

container_delete-found :
    (c : CollectionViewSet) (pk : Value) (o : Option Record)
    → c.is_mutable ≡ true
    → find c.pk_field pk c.container ≡ o
    → container_delete pk c ≡ delete_found o pk c
unfolding container_delete
container_delete-found c pk o mutable there =
    λ i. if mutable i then delete_found (there i) pk c else (c, read_only)

found_or-if :
    (other : Value) (b : Bool) (x : Record) (o : Option Record)
    → found_or other (if b then some x else o) ≡ (if b then ok x else found_or other o)
found_or-if other true x o = refl
found_or-if other false x o = refl

-- A successful update answers the item that its key then finds, and leaves what every other key
-- finds, where the update keeps the item's key.
pub container_update-retrieve :
    (c : CollectionViewSet) (pk other : Value) (data_ : Data) (partial : Bool) (item : Record)
    → c.is_mutable ≡ true
    → container_retrieve pk c ≡ ok item
    → read (updated item data_ partial) c.pk_field ≡ pk
    → ((container_update pk data_ partial c).1 ≡ ok (updated item data_ partial))
      × (container_retrieve other (container_update pk data_ partial c).0 ≡ (
          if value_beq pk other
          then ok (updated item data_ partial)
          else container_retrieve other c))
unfolding container_update container_retrieve
container_update-retrieve c pk other data_ partial item mutable there kept =
    let found = found_or-some pk (find c.pk_field pk c.container) item there in
    let done = container_update-found c pk data_ partial item mutable found in
    (
      ap (λ r. r.1) done,
      ap (λ r. found_or other (find r.0.pk_field other r.0.container)) done
          ∙ ap (found_or other)
              (find-update_items c.pk_field pk other data_ partial c.container item found kept)
          ∙ found_or-if other (value_beq pk other) (updated item data_ partial)
              (find c.pk_field other c.container),
    )

-- A successful deletion leaves nothing under its key, where no two items have the same key, and
-- leaves what every other key finds; a second deletion of the key finds nothing.
pub container_delete-retrieve :
    (c : CollectionViewSet) (pk other : Value) (item : Record)
    → c.is_mutable ≡ true
    → HasUniqueKeys c.pk_field c.container
    → container_retrieve pk c ≡ ok item
    → ((container_delete pk c).1 ≡ ok tt)
      × ((container_retrieve other (container_delete pk c).0
            ≡ (if value_beq pk other then not_found other else container_retrieve other c))
          × ((container_delete pk (container_delete pk c).0).1 ≡ not_found pk))
unfolding container_delete container_retrieve
container_delete-retrieve c pk other item mutable unique there =
    let found = found_or-some pk (find c.pk_field pk c.container) item there in
    let done = container_delete-found c pk (some item) mutable found in
    let items = delete_items c.pk_field pk c.container in
    let gone = find-delete_items c.pk_field pk c.container unique in
    (
      ap (λ r. r.1) done,
      (
        ap (λ r. found_or other (find r.0.pk_field other r.0.container)) done
            ∙ elim (Bool-cases (value_beq pk other)) [
              | inl own ↦ rw own (
                  ap (found_or other)
                    (ap (λ v. find c.pk_field v items) (sym (value_beq-eq pk other own)) ∙ gone))
              | inr away ↦
                  rw away
                    (ap (found_or other) (find-delete_other c.pk_field pk other c.container away))
            ],
        ap (λ r. (container_delete pk r.0).1) done
            ∙ ap (λ r. r.1) (container_delete-found (with_items items c) pk none mutable gone),
      ),
    )
