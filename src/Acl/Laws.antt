-- ===== src/Acl/Laws.antt =====
-- An access list behaves as a set of users.
use distributed_documentatio.Base.{
  ℕ, CText, ◌≡◌, ◌++◌, Bool, ◌∷◌, strn_eq_sym, ◌||◌, arith, [], true, false, strn_eq_refl,
  strn_eq_left, not, refl, ◌&&◌, length, some, none, ◌<◌, ◌⊎◌, ◌↔◌, take_all, ◌≤◌, inl, ◌-◌, inr,
  ◌∙◌, length-append, suc, ◌+◌, if◌then◌else◌,
}
use distributed_documentatio.Acl.{
  Acl, max_username_length, same_user, acl_contains, stored_name, acl_add, last_entry, but_last,
  fill_gap, acl_remove, Bool, true, false, not, length, some, none,
}

same_user_refl : (u : CText) → same_user u u ≡ true
unfolding same_user
same_user_refl u = strn_eq_refl max_username_length u

pub same_user_sym : (u v : CText) → same_user u v ≡ same_user v u
unfolding same_user
same_user_sym u v = strn_eq_sym max_username_length u v

pub same_user_left : (u v w : CText) → same_user u v ≡ true → same_user u w ≡ same_user v w
unfolding same_user
same_user_left = strn_eq_left max_username_length

pub acl_contains_congr :
    (es : Acl) (u v : CText) → same_user u v ≡ true → acl_contains es u ≡ acl_contains es v
unfolding acl_contains
acl_contains_congr [] u v h = refl
acl_contains_congr (e ∷ es) u v h =
    ground
      (arith, acl_contains_congr es u v, same_user_left u v e, same_user_sym e u, same_user_sym e v)

pub acl_contains-append :
    (es ds : Acl) (u : CText) → acl_contains (es ++ ds) u ≡ acl_contains es u || acl_contains ds u
unfolding acl_contains
acl_contains-append [] ds u = refl
acl_contains-append (e ∷ es) ds u = ground (arith, acl_contains-append es ds u)

-- No entry occurs twice.
unfoldable pub is_distinct : Acl → Bool
is_distinct [] = true
is_distinct (e ∷ es) = not (acl_contains es e) && is_distinct es

-- The last entry in front of the others is the list again, up to order.
fill_gap_contains :
    (e : CText) (es : Acl) (u : CText)
    → acl_contains (fill_gap (e ∷ es)) u ≡ acl_contains (e ∷ es) u
unfolding acl_contains fill_gap
fill_gap_contains e [] u = refl
fill_gap_contains e (d ∷ es) u = ground (arith, fill_gap_contains d es u)

acl_contains-fill_gap : (es : Acl) (u : CText) → acl_contains (fill_gap es) u ≡ acl_contains es u
acl_contains-fill_gap [] u = unfold fill_gap in refl
acl_contains-fill_gap (e ∷ es) u = fill_gap_contains e es u

but_last-contains :
    (e : CText) (es : Acl) (u : CText)
    → acl_contains (e ∷ es) u ≡ false
    → acl_contains (but_last e es) u ≡ false
unfolding acl_contains but_last
but_last-contains e [] u h = refl
but_last-contains e (d ∷ es) u h = ground (arith, but_last-contains d es u)

last_entry-contains : (e : CText) (es : Acl) → acl_contains (e ∷ es) (last_entry e es) ≡ true
unfolding acl_contains last_entry
last_entry-contains e [] = rw (same_user_refl e) refl
last_entry-contains e (d ∷ es) = ground (arith, last_entry-contains d es)

fill_gap_distinct :
    (e : CText) (es : Acl) → is_distinct (e ∷ es) ≡ true → is_distinct (fill_gap (e ∷ es)) ≡ true
unfolding is_distinct acl_contains fill_gap
fill_gap_distinct e [] h = refl
fill_gap_distinct e (d ∷ es) h = ground (
  arith,
  fill_gap_distinct d es,
  acl_contains_congr (d ∷ es) e (last_entry d es),
  last_entry-contains d es,
  but_last-contains d es e,
)

is_distinct-fill_gap : (es : Acl) → is_distinct es ≡ true → is_distinct (fill_gap es) ≡ true
is_distinct-fill_gap [] h = unfold fill_gap is_distinct in refl
is_distinct-fill_gap (e ∷ es) h = fill_gap_distinct e es h

-- The name was there exactly if the result says that it was removed.
removed-eq-contains : (es : Acl) (u : CText) → (acl_remove es u).0 ≡ acl_contains es u
unfolding acl_remove acl_contains
removed-eq-contains [] u = refl
removed-eq-contains (e ∷ es) u = ground (arith, removed-eq-contains es u)

-- The other users of a list without duplicates keep their entries, and the removed one has none.
acl_contains-remove :
    (es : Acl) (u v : CText)
    → is_distinct es ≡ true
    → acl_contains (acl_remove es u).1 v ≡ acl_contains es v && not (same_user u v)
unfolding acl_remove acl_contains is_distinct
acl_contains-remove [] u v h = refl
acl_contains-remove (e ∷ es) u v h = ground (
  arith,
  acl_contains-remove es u v,
  acl_contains-fill_gap es v,
  acl_contains_congr es e v,
  same_user_left e u v,
  same_user_left u v e,
  same_user_sym e u,
  same_user_sym e v,
  same_user_sym u v,
)

acl_remove-keeps :
    (es : Acl) (u v : CText)
    → is_distinct es ≡ true
    → acl_contains es v ≡ false
    → acl_contains (acl_remove es u).1 v ≡ false
acl_remove-keeps es u v h k = rw (acl_contains-remove es u v h, k) refl

acl_remove-distinct :
    (es : Acl) (u : CText) → is_distinct es ≡ true → is_distinct (acl_remove es u).1 ≡ true
unfolding acl_remove is_distinct
acl_remove-distinct [] u h = refl
acl_remove-distinct (e ∷ es) u h =
    ground (arith, acl_remove-distinct es u, is_distinct-fill_gap es, acl_remove-keeps es u e)

-- A name that fits an entry is stored as it is.
pub stored_name_fits : (u : CText) → length u < max_username_length → stored_name u ≡ u
unfolding stored_name
stored_name_fits u h = take_all (max_username_length - 1) u (omega arith)

is_distinct-append :
    (es : Acl) (u : CText)
    → is_distinct es ≡ true
    → acl_contains es u ≡ false
    → is_distinct (es ++ u ∷ []) ≡ true
unfolding is_distinct acl_contains
is_distinct-append [] u h k = refl
is_distinct-append (e ∷ es) u h k =
    ground (arith, is_distinct-append es u, acl_contains-append es (u ∷ []) e, same_user_sym u e)

-- Removal takes exactly the named user off a list without duplicates, and keeps it so.
pub remove_exact :
    (es : Acl) (u v : CText)
    → is_distinct es ≡ true
    → (acl_contains (acl_remove es u).1 v ≡ acl_contains es v && not (same_user u v))
      × (is_distinct (acl_remove es u).1 ≡ true)
      × ((acl_remove es u).0 ≡ acl_contains es u)
remove_exact es u v h =
    (acl_contains-remove es u v h, acl_remove-distinct es u h, removed-eq-contains es u)

acl_add-new :
    (capacity : ℕ) (es ds : Acl) (u : CText)
    → acl_add capacity es u ≡ some ds
    → (acl_contains es u ≡ true) × (ds ≡ es)
      ⊎ (acl_contains es u ≡ false) × (ds ≡ es ++ stored_name u ∷ []) × (length es < capacity)
unfolding acl_add
acl_add-new capacity es ds u e = ground arith

-- Adding a name that fits an entry puts exactly that user on the list, never twice, within the capacity.
pub add_exact :
    (capacity : ℕ) (es ds : Acl) (u v : CText)
    → length u < max_username_length
    → is_distinct es ≡ true
    → length es ≤ capacity
    → acl_add capacity es u ≡ some ds
    → (acl_contains ds v ≡ acl_contains es v || same_user u v)
      × (is_distinct ds ≡ true)
      × (length ds ≤ capacity)
add_exact capacity es ds u v short h fits e = elim (acl_add-new capacity es ds u e) [
  | inl (there, same) ↦ rw same (ground (arith, acl_contains_congr es u v), h, fits)
  | inr (absent, grown, room) ↦
      rw (grown, stored_name_fits u short)
        (
          acl_contains-append es (u ∷ []) v ∙ (unfold acl_contains in ground arith),
          is_distinct-append es u h absent,
          omega (arith, length-append es (u ∷ [])),
        )
]

-- A full list refuses every user that is not on it, and no other.
pub add_refused :
    (capacity : ℕ) (es : Acl) (u : CText)
    → (acl_add capacity es u ≡ none) ↔ (acl_contains es u ≡ false) × (capacity ≤ length es)
unfolding acl_add
add_refused capacity es u = (λ e. ground arith, λ h. ground arith)

length-but_last : (e : CText) (es : Acl) → suc (length (but_last e es)) ≡ suc (length es)
unfolding but_last
length-but_last e [] = refl
length-but_last e (d ∷ es) = omega (arith, length-but_last d es)

length-fill_gap : (es : Acl) → length (fill_gap es) ≡ length es
unfolding fill_gap
length-fill_gap [] = refl
length-fill_gap (e ∷ es) = length-but_last e es

-- A removal gives one place back, if there is something to remove.
pub length-remove :
    (es : Acl) (u : CText)
    → length (acl_remove es u).1 + (if acl_contains es u then 1 else 0) ≡ length es
unfolding acl_remove acl_contains
length-remove [] u = refl
length-remove (e ∷ es) u = ground (arith, length-remove es u, length-fill_gap es)
