-- ===== src/Protocol/Fields.antt =====
-- What is built from fields is parsed into the same fields.
use distributed_documentatio.Base.{
  ℕ, CText, Bool, all, List, ◌++◌, not, ◌≡◌, ◌∷◌, true, [], ◌==◌, none, some, length, ap, arith,
  ◌≤◌, refl, suc, ◌<◌, zero, ◌≢◌, ◌-◌, take_all, lt→ltb,
}
use distributed_documentatio.Protocol.{
  max_message_size, max_fields, cut_field, parse_fields, strip_terminator, join_fields,
  protocol_parse_message, protocol_build_message,
}

unfoldable pub is_plain : CText → Bool
is_plain = all (λ c. not (c == b'|'))

cut_field_last : (f : CText) → is_plain f ≡ true → cut_field f ≡ (f, none)
unfolding cut_field is_plain all
cut_field_last [] h = refl
cut_field_last (c ∷ f) h = ground (arith, cut_field_last f)

cut_field-append :
    (f rest : CText) → is_plain f ≡ true → cut_field (f ++ b'|' ∷ rest) ≡ (f, some rest)
unfolding cut_field is_plain all
cut_field-append [] rest h = refl
cut_field-append (c ∷ f) rest h = ground (arith, cut_field-append f rest)

-- Only the single empty field joins to the empty text.
join_fields-eq-nil : (g : CText) (fs : List CText) → join_fields (g ∷ fs) ≡ [] → g ∷ fs ≡ [] ∷ []
unfolding join_fields
join_fields-eq-nil g [] e = ap (λ t. t ∷ []) e
join_fields-eq-nil [] (f ∷ fs) e = cc
join_fields-eq-nil (c ∷ g) (f ∷ fs) e = cc

parse_fields-last :
    (slots : ℕ) (f : CText) → is_plain f ≡ true → parse_fields (suc slots) f ≡ f ∷ []
unfolding parse_fields
parse_fields-last slots f h = rw (cut_field_last f h, parse_fields, cut_field_last f h) refl

parse_fields-next :
    (slots : ℕ) (f r : CText) (rest : List CText)
    → is_plain f ≡ true
    → 0 < slots
    → r ≢ []
    → parse_fields slots r ≡ rest
    → parse_fields (suc slots) (f ++ b'|' ∷ r) ≡ f ∷ rest
unfolding parse_fields
parse_fields-next slots f [] rest h pos ne e = absurd (ne refl)
parse_fields-next slots f (c ∷ r) rest h pos ne e =
    rw (cut_field-append f (c ∷ r) h, parse_fields, cut_field-append f (c ∷ r) h) (ap (◌∷◌ f) e)

parse_fields-empty_end :
    (slots : ℕ) (f : CText)
    → is_plain f ≡ true
    → 0 < slots
    → parse_fields (suc slots) (f ++ b'|' ∷ []) ≡ f ∷ [] ∷ []
unfolding parse_fields
parse_fields-empty_end slots f h pos =
    rw (cut_field-append f [] h, parse_fields, cut_field-append f [] h, lt→ltb 0 slots pos) refl

pub parse-join_fields :
    (slots : ℕ) (f : CText) (fs : List CText)
    → all is_plain (f ∷ fs) ≡ true
    → length (f ∷ fs) ≤ slots
    → parse_fields slots (join_fields (f ∷ fs)) ≡ f ∷ fs
unfolding join_fields all
parse-join_fields zero f fs h le = absurd (omega arith)
parse-join_fields (suc slots) f [] h le = parse_fields-last slots f (ground arith)
parse-join_fields (suc slots) f (g ∷ fs) h le =
    step (join_fields (g ∷ fs)) refl (parse-join_fields slots g fs (ground arith) (omega arith))
  where
    plain : is_plain f ≡ true
    plain = ground arith

    step :
        (r : CText)
        → join_fields (g ∷ fs) ≡ r
        → parse_fields slots (join_fields (g ∷ fs)) ≡ g ∷ fs
        → parse_fields (suc slots) (f ++ b'|' ∷ join_fields (g ∷ fs)) ≡ f ∷ g ∷ fs
    step [] e ih =
        rw (e, join_fields-eq-nil g fs e) (parse_fields-empty_end slots f plain (omega arith))
    step (c ∷ r) e ih =
        parse_fields-next slots f (join_fields (g ∷ fs)) (g ∷ fs) plain (omega arith) (λ z. cc) ih

strip_terminator-append : (s : CText) → strip_terminator (s ++ 10 ∷ []) ≡ s
unfolding strip_terminator
strip_terminator-append [] = refl
strip_terminator-append (c ∷ []) = refl
strip_terminator-append (c ∷ d ∷ s) = ap (◌∷◌ c) (strip_terminator-append (d ∷ s))

-- A message of at most `max_fields` fields with no '|' in them that fits the buffer is parsed into the
-- fields that it was built from.
pub parse-build :
    (f : CText) (fs : List CText) (message : CText)
    → all is_plain (f ∷ fs) ≡ true
    → length (f ∷ fs) ≤ max_fields
    → protocol_build_message (f ∷ fs) ≡ some message
    → length message < max_message_size
    → protocol_parse_message message ≡ f ∷ fs
unfolding protocol_build_message protocol_parse_message
parse-build f fs message h le e short =
    let text : message ≡ join_fields (f ∷ fs) ++ 10 ∷ [] = cc in
    let fits : length message ≤ max_message_size - 1 = omega arith in
    rw
      (
        take_all (max_message_size - 1) message fits,
        text,
        strip_terminator-append (join_fields (f ∷ fs)),
      )
      (parse-join_fields max_fields f fs h le)
