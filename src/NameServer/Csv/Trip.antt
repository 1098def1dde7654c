-- ===== src/NameServer/Csv/Trip.antt =====
-- A list that is printed is read again.
use distributed_documentatio.Base.{
  arith, ◌∷◌, all, CText, ℕ, ◌≡◌, ◌||◌, true, ◌∙◌, [], ap, ◌==◌, false, ◌++◌, refl, ◌<◌, sym,
  length, ◌≤◌, some, length-append, leb, take, take_all, ◌-◌,
}
use distributed_documentatio.Acl.Laws.{
  is_distinct, stored_name_fits, acl_contains-append, same_user_sym,
}
use distributed_documentatio.NameServer.Csv.{
  file_acl_parse_csv, join_commas, split_commas, add_tokens,
}
use distributed_documentatio.Acl.{
  Acl, file_acl_add, acl_add, max_username_length, acl_contains, ns_max_clients, stored_name,
}
use distributed_documentatio.Names.{validate_username, is_user_text}
use distributed_documentatio.Text.{is_alnum, is_space, trim_string}
use distributed_documentatio.Text.Trim.{StartsInk, EndsInk, trim-ink}
use distributed_documentatio.NameServer.State.{is_empty}
use mathlib.Core.List.{append-nil, append_assoc}
use distributed_documentatio.NameServer.Sharing.{max_field_size}

-- A letter, a digit or `_` is no space and no comma.
name_byte :
    (c : ℕ) → (is_alnum c || c == b'_') ≡ true → (is_space c ≡ false) × ((c == b',') ≡ false)
unfolding is_alnum is_space
name_byte c h = ground arith

pub valid_name :
    (u : CText)
    → validate_username u ≡ true
    → (is_user_text u ≡ true) × (0 < length u) × (length u < max_username_length)
unfolding validate_username
valid_name u h = ground arith

-- The names on a list are valid.
abbrev pub AreNames : Acl → Type 0
AreNames [] = Unit {0}
AreNames (u ∷ us) = (validate_username u ≡ true) × AreNames us

split-name :
    (u : CText)
    → is_user_text u ≡ true
    → (split_commas u ≡ u ∷ [])
      × ((rest : CText) → split_commas (u ++ b',' ∷ rest) ≡ u ∷ split_commas rest)
unfolding is_user_text all split_commas
split-name [] h = (refl, λ rest. refl)
split-name (c ∷ u) h =
    let (ends, continues) = split-name u (ground arith) in
    let byte = name_byte c in
    (ground (arith, byte, ends), λ rest. ground (arith, byte, continues rest))

split-join_commas :
    (u : CText) (us : Acl) → AreNames (u ∷ us) → split_commas (join_commas (u ∷ us)) ≡ u ∷ us
unfolding join_commas validate_username
split-join_commas u [] h = (split-name u (valid_name u h.0).0).0
split-join_commas u (v ∷ us) h =
    (split-name u (valid_name u h.0).0).1 (join_commas (v ∷ us))
    ∙ ap (◌∷◌ u) (split-join_commas v us h.1)

pub starts-name : (u : CText) → is_user_text u ≡ true → StartsInk u
unfolding is_user_text all
starts-name [] h = tt
starts-name (c ∷ u) h = ground (arith, name_byte c)

pub ends-name : (u : CText) → is_user_text u ≡ true → EndsInk u
unfolding is_user_text all
ends-name [] h = tt
ends-name (c ∷ []) h = ground (arith, name_byte c)
ends-name (c ∷ d ∷ u) h = ends-name (d ∷ u) (ground arith)

-- Nothing is trimmed off a name.
trim-name : (u : CText) → validate_username u ≡ true → trim_string u ≡ u
unfolding all
trim-name u h =
    let (letters, some_text, _) = valid_name u h in
    ap trim_string (sym (append-nil u))
    ∙ trim-ink u [] (starts-name u letters) (ends-name u letters) some_text refl

-- A new name is put at the end.
add-new :
    (es : Acl) (u : CText)
    → validate_username u ≡ true
    → acl_contains es u ≡ false
    → length es < ns_max_clients
    → file_acl_add es u ≡ some (es ++ u ∷ [])
unfolding file_acl_add acl_add
add-new es u h absent room =
    let (_, _, short) = valid_name u h in
    let whole : stored_name u ≡ u = stored_name_fits u short in
    let not_full : leb ns_max_clients (length es) ≡ false = ground (arith, room) in
    rw (absent, not_full, whole) refl

not_empty : (u : CText) → 0 < length u → is_empty u ≡ false
unfolding is_empty
not_empty [] h = absurd (omega arith)
not_empty (c ∷ u) h = refl

distinct-middle :
    (done : Acl) (u : CText) (us : Acl)
    → is_distinct (done ++ u ∷ us) ≡ true
    → acl_contains done u ≡ false
unfolding is_distinct acl_contains
distinct-middle [] u us h = refl
distinct-middle (d ∷ done) u us h =
    ground
      (arith, distinct-middle done u us, acl_contains-append done (u ∷ us) d, same_user_sym d u)

add_tokens-names :
    (done us : Acl)
    → AreNames us
    → is_distinct (done ++ us) ≡ true
    → length (done ++ us) ≤ ns_max_clients
    → add_tokens done us ≡ done ++ us
unfolding add_tokens is_empty
add_tokens-names done [] h once fit = sym (append-nil done)
add_tokens-names done (u ∷ us) h once fit =
    let (_, some_text, _) = valid_name u h.0 in
    let named : is_empty u ≡ false = not_empty u some_text in
    let absent = distinct-middle done u us once in
    let room : length done < ns_max_clients = omega (arith, fit, length-append done (u ∷ us)) in
    let whole : (done ++ u ∷ []) ++ us ≡ done ++ u ∷ us = append_assoc done (u ∷ []) us in
    rw (add_tokens, trim-name u h.0, named, h.0, trim-name u h.0, add-new done u h.0 absent room)
      (add_tokens-names (done ++ u ∷ []) us h.1 (rw whole once) (rw whole fit) ∙ whole)

-- A list of different valid user names that fits its array, printed with at most 4095 bytes, is read again as the
-- same list.
pub parse-join_commas :
    (us : Acl)
    → AreNames us
    → is_distinct us ≡ true
    → length us ≤ ns_max_clients
    → length (join_commas us) < max_field_size
    → file_acl_parse_csv (join_commas us) ≡ us
unfolding file_acl_parse_csv
parse-join_commas [] h once fit short =
    unfold split_commas join_commas add_tokens take trim_string is_empty in refl
parse-join_commas (u ∷ us) h once fit short =
    rw
      (
        take_all (max_field_size - 1) (join_commas (u ∷ us)) (omega (arith, short)),
        split-join_commas u us h,
      )
      (add_tokens-names [] (u ∷ us) h once fit)
