-- ===== src/Sidecar/Group.antt =====
-- The loop that the readers of boundary files and of the state map share: an item that opens a group
-- closes the current one, and every other item is taken into the current one, if there is one.
use callbook_rs.Prelude.{
  List, Option, Option-cases, [], ap, append_assoc, cons_some, cons_some-append, if◌then◌else◌, inl,
  inr, is_some, map_option, none, refl, some, sym, ◌++◌, ◌∙◌, ◌∷◌, ◌≡◌,
}

pub record Groups {ℓ} (S : Type ℓ) : Type ℓ where
  pub done : List S
  pub current : Option S

-- `opens` gives what an opening item starts with, which may be nothing.
module _ {ℓ κ} {A : Type ℓ} {S : Type κ} (opens : A → Option (Option S)) (take_in : A → S → S)
    (finish : S → S) where
  unfoldable pub push_current : Groups S → List S
  push_current groups = groups.done ++ cons_some (map_option finish groups.current) []

  abbrev pub open_or_take : Option (Option S) → A → Groups S → Groups S
  open_or_take none item groups = record groups {
    current = map_option (take_in item) groups.current;
  }
  open_or_take (some next) item groups = record { done = push_current groups; current = next }

  unfoldable pub visit_item : A → Groups S → Groups S
  unfolding push_current
  visit_item item groups = open_or_take (opens item) item groups

  unfoldable pub visit_items : List A → Groups S → Groups S
  unfolding visit_item
  visit_items [] groups = groups
  visit_items (item ∷ items) groups = visit_items items (visit_item item groups)

  unfoldable pub read_groups : List A → List S
  unfolding visit_items push_current
  read_groups items = push_current (visit_items items (record { done = []; current = none }))

  -- The items up to the next that opens a group.
  abbrev pub body_of : List A → List A
  body_of [] = []
  body_of (item ∷ items) = if is_some (opens item) then [] else item ∷ body_of items

  abbrev pub take_all_in : List A → S → S
  take_all_in [] s = s
  take_all_in (item ∷ items) s = take_all_in items (take_in item s)

  -- Each group, taken from its opening item and the items up to the next opening one.
  abbrev pub group_of : Option S → List A → Option S
  group_of start items = map_option (λ s. finish (take_all_in (body_of items) s)) start

  abbrev pub opened : Option (Option S) → List A → List S → List S
  opened none items rest = rest
  opened (some start) items rest = cons_some (group_of start items) rest

  abbrev pub groups_of : List A → List S
  groups_of [] = []
  groups_of (item ∷ items) = opened (opens item) items (groups_of items)

  group_of-take_in :
      (item : A) (items : List A) (start : Option S)
      → opens item ≡ none
      → group_of (map_option (take_in item) start) items ≡ group_of start (item ∷ items)
  group_of-take_in item items none e = refl
  group_of-take_in item items (some s) e = rw e refl

  group_of-opens :
      (item : A) (items : List A) (start : Option S) (next : Option S)
      → opens item ≡ some next
      → map_option finish start ≡ group_of start (item ∷ items)
  group_of-opens item items none next e = refl
  group_of-opens item items (some s) next e = rw e refl

  push_current-visit_items :
      (items : List A) (groups : Groups S)
      → push_current (visit_items items groups)
        ≡ groups.done ++ cons_some (group_of groups.current items) (groups_of items)
  unfolding visit_items push_current visit_item
  push_current-visit_items [] groups = refl
  push_current-visit_items (item ∷ items) groups = elim (Option-cases (opens item)) [
    | inl e ↦
        let step : visit_item item groups
            ≡ record groups { current = map_option (take_in item) groups.current } =
          rw (visit_item, e) refl in
        ap (λ g. push_current (visit_items items g)) step
        ∙ (push_current-visit_items items
              (record groups { current = map_option (take_in item) groups.current })
            ∙ ap (λ o. groups.done ++ cons_some o (groups_of items))
                (group_of-take_in item items groups.current e))
        ∙ ap
            (λ o.
              groups.done
              ++ cons_some (group_of groups.current (item ∷ items))
                  (opened o items (groups_of items)))
            (sym e)
    | inr (start, e) ↦
        let step : visit_item item groups ≡ record { done = push_current groups; current = start } =
          rw (visit_item, e) refl in
        ap (λ g. push_current (visit_items items g)) step
        ∙ (push_current-visit_items items (record { done = push_current groups; current = start })
            ∙ append_assoc groups.done (cons_some (map_option finish groups.current) [])
                (cons_some (group_of start items) (groups_of items))
            ∙ ap (λ xs. groups.done ++ xs)
                (cons_some-append (map_option finish groups.current)
                  (cons_some (group_of start items) (groups_of items)))
            ∙ ap
                (λ o.
                  groups.done ++ cons_some o (cons_some (group_of start items) (groups_of items)))
                (group_of-opens item items groups.current start e))
        ∙ ap
            (λ o.
              groups.done
              ++ cons_some (group_of groups.current (item ∷ items))
                  (opened o items (groups_of items)))
            (sym e)
  ]

  pub read_groups-groups_of : (items : List A) → read_groups items ≡ groups_of items
  unfolding read_groups
  read_groups-groups_of items =
      push_current-visit_items items (record { done = []; current = none })
