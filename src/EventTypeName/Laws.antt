-- ===== src/EventTypeName/Laws.antt =====
-- What parsing accepts, and what a cleaned event type looks like.
use eventing_manager.Base.{
  ◌≡◌, refl, sym, ◌∙◌, subst, String, ◌<>◌, true, ◌||◌, not, nat_beq, List, [], ◌∷◌, ◌⊎◌, inl, inr,
  arith, length, ◌≤◌,
}
use eventing_manager.Base.Text.{is_alphanumeric, all_chars}
use eventing_manager.Base.Text.Laws.{all_chars-remove, all_chars_mono}
use eventing_manager.Errors.{Error}
use eventing_manager.EventTypeName.{
  Parsed, parse_event, parse_parts, parse, build, clean, clean_event_type, get_clean_name,
  err_invalid_format, invalid_event_type_segment,
}

clean_event_type-all_chars :
    (t : String) → all_chars (λ n. is_alphanumeric n || nat_beq n b'.') (clean_event_type t) ≡ true
unfolding clean_event_type
clean_event_type-all_chars t =
    all_chars_mono (λ n. not (invalid_event_type_segment n))
      (λ n. is_alphanumeric n || nat_beq n b'.') (λ n h. ground arith) (clean_event_type t)
      (all_chars-remove invalid_event_type_segment t)

cleaned_from :
    (prefix cleaned : String) (d : Error ⊎ Parsed)
    → ◌≡◌ {A = Error ⊎ String}
        (elim d [
          | inl e ↦ inl e
          | inr p ↦ inr (
              clean_event_type (build prefix (get_clean_name p.application_name) p.event p.version))
        ])
        (inr cleaned)
    → all_chars (λ n. is_alphanumeric n || nat_beq n b'.') cleaned ≡ true
cleaned_from prefix cleaned (inl e) h = cc
cleaned_from prefix cleaned (inr p) h =
    let t = build prefix (get_clean_name p.application_name) p.event p.version in
    let q : clean_event_type t ≡ cleaned = cc in
    subst (λ s. all_chars (λ n. is_alphanumeric n || nat_beq n b'.') s ≡ true) q
      (clean_event_type-all_chars t)

-- A cleaned event type has letters, digits and dots alone.
pub clean-all_chars :
    (prefix event_type cleaned : String)
    → clean prefix event_type ≡ inr cleaned
    → all_chars (λ n. is_alphanumeric n || nat_beq n b'.') cleaned ≡ true
unfolding clean clean_event_type
clean-all_chars prefix event_type cleaned e =
    cleaned_from prefix cleaned (parse event_type prefix) e

not_inl : (p : Parsed) → ◌≡◌ {A = Error ⊎ Parsed} (inr p) (inl err_invalid_format) → ⊥
not_inl p e = cc

-- Two segments or more are an event and a version.
parse_event-inr :
    (name object a b c : String) (parts : List String)
    → (p : Parsed) × (parse_event name object (a ∷ b ∷ c ∷ parts) ≡ inr p)
unfolding parse_event
parse_event-inr name object a b c [] = (_, refl)
parse_event-inr name object a b c (d ∷ parts) = parse_event-inr name (object <> a) b c d parts

-- `parse` reports a format error exactly for less than four segments.
pub parse_parts-length :
    (parts : List String)
    → (parse_parts parts ≡ inl err_invalid_format → length parts ≤ 3)
      × (length parts ≤ 3 → parse_parts parts ≡ inl err_invalid_format)
unfolding parse_parts
parse_parts-length [] = (λ e. omega arith, λ h. refl)
parse_parts-length (a ∷ []) = (λ e. omega arith, λ h. refl)
parse_parts-length (a ∷ b ∷ []) = (λ e. omega arith, λ h. refl)
parse_parts-length (a ∷ b ∷ c ∷ []) = (λ e. omega arith, λ h. refl)
parse_parts-length (a ∷ b ∷ c ∷ d ∷ parts) =
    let (p, q) = parse_event-inr a "" b c d parts in
    (λ e. absurd (not_inl p (sym q ∙ e)), λ h. absurd (omega arith))
