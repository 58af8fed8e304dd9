-- ===== src/EventTypeName.antt =====
-- Parsing, building and cleaning event types for the publisher (pkg/backend/eventtype).
pub mod Laws
use eventing_manager.Base.{
  ℕ, String, ◌<>◌, Bool, true, false, ◌||◌, not, nat_beq, List, [], ◌∷◌, if◌then◌else◌, ◌⊎◌, inl,
  inr, arith,
}
use eventing_manager.Base.Text.{
  remove, has_prefix, trim_prefix, delete_all, split, concat, is_all_space, is_alphanumeric,
}
use eventing_manager.Errors.{Error, sentinel}

abbrev pub err_prefix_not_found : Error
err_prefix_not_found = sentinel "prefix not found"

abbrev pub err_invalid_format : Error
err_invalid_format = sentinel "invalid format"

-- The three results of `parse`
pub record Parsed : Type 0 where
  pub application_name : String
  pub event : String
  pub version : String

-- The segments after the application name, the last two apart: `parts[1:len(parts)-2]` without dots,
-- the operation, and the version.
unfoldable pub parse_event : String → String → List String → Error ⊎ Parsed
parse_event application_name business_object (operation ∷ version ∷ []) = inr (record {
  application_name = application_name;
  event = business_object <> ("." <> operation);
  version = version;
})
parse_event application_name business_object (part ∷ next ∷ last ∷ parts) =
    parse_event application_name (business_object <> part) (next ∷ last ∷ parts)
parse_event application_name business_object _ = inl err_invalid_format

unfoldable pub parse_parts : List String → Error ⊎ Parsed
parse_parts (application_name ∷ a ∷ b ∷ c ∷ parts) =
    parse_event application_name "" (a ∷ b ∷ c ∷ parts)
parse_parts _ = inl err_invalid_format

unfoldable pub parse : String → String → Error ⊎ Parsed
parse event_type prefix =
    if has_prefix event_type prefix
    then parse_parts (split b'.' (trim_prefix (delete_all event_type prefix) "."))
    else inl err_prefix_not_found

unfoldable pub build : String → String → String → String → String
build prefix application_name event version =
    if is_all_space prefix
    then application_name <> ("." <> (event <> ("." <> version)))
    else prefix <> ("." <> (application_name <> ("." <> (event <> ("." <> version)))))

-- `[^a-zA-Z0-9.]`
abbrev pub invalid_event_type_segment : ℕ → Bool
invalid_event_type_segment n = not (is_alphanumeric n || nat_beq n b'.')

-- `\W|_`
abbrev pub invalid_application_name_segment : ℕ → Bool
invalid_application_name_segment n = not (is_alphanumeric n)

unfoldable pub get_clean_name : String → String
get_clean_name name = remove invalid_application_name_segment name

unfoldable pub clean_event_type : String → String
clean_event_type event_type = remove invalid_event_type_segment event_type

-- `Clean` of both cleaners, which have the same body.
unfoldable pub clean : String → String → Error ⊎ String
clean prefix event_type = elim (parse event_type prefix) [
  | inl e ↦ inl e
  | inr p ↦
      inr (clean_event_type (build prefix (get_clean_name p.application_name) p.event p.version))
]
