-- ===== src/Cleaner.antt =====
-- pkg/backend/cleaner: what each backend strips from sources and event types. Both cleaners
-- return a nil error always, so a cleaned text is a plain result here.
pub mod Laws
use eventing_manager.Base.{
  ℕ, String, ◌<>◌, Bool, ◌||◌, List, [], ◌∷◌, not, nat_beq, ltb, length, if◌then◌else◌, suc,
}
use eventing_manager.Base.Text.{remove, split, concat, is_blank, is_alphanumeric}

-- The interface `Cleaner`
pub record Cleaner : Type 0 where
  pub clean_source : String → String
  pub clean_event_type : String → String

-- `[\s.>*/\\]`
abbrev pub invalid_source_character : ℕ → Bool
invalid_source_character n =
    is_blank n
    || nat_beq n b'.'
    || nat_beq n b'>'
    || nat_beq n b'*'
    || nat_beq n b'/'
    || nat_beq n 92

-- `[\s>*/\\]`
abbrev pub invalid_event_type_character : ℕ → Bool
invalid_event_type_character n =
    is_blank n || nat_beq n b'>' || nat_beq n b'*' || nat_beq n b'/' || nat_beq n 92

unfoldable pub clean_jetstream_source : String → String
clean_jetstream_source source = remove invalid_source_character source

unfoldable pub clean_jetstream_event_type : String → String
clean_jetstream_event_type event_type = remove invalid_event_type_character event_type

abbrev pub jetstream_cleaner : Cleaner
jetstream_cleaner = record {
  clean_source = clean_jetstream_source;
  clean_event_type = clean_jetstream_event_type;
}

-- `[^a-zA-Z0-9.]`
abbrev pub invalid_event_mesh_type_character : ℕ → Bool
invalid_event_mesh_type_character n = not (is_alphanumeric n || nat_beq n b'.')

-- `[^a-zA-Z0-9]`
abbrev pub invalid_event_mesh_source_character : ℕ → Bool
invalid_event_mesh_source_character n = not (is_alphanumeric n)

abbrev pub max_event_mesh_segments_limit : ℕ
max_event_mesh_segments_limit = 3

-- All segments but the last two without dots, then the last two with a dot before each.
merge_segments : List String → String
merge_segments [] = ""
merge_segments (a ∷ []) = a
merge_segments (a ∷ b ∷ []) = "." <> (a <> ("." <> b))
merge_segments (a ∷ b ∷ c ∷ rest) = a <> merge_segments (b ∷ c ∷ rest)

unfoldable pub get_merged_segments : String → String
unfolding merge_segments
get_merged_segments event_type =
    if ltb max_event_mesh_segments_limit (length (split b'.' event_type))
    then merge_segments (split b'.' event_type)
    else event_type

unfoldable pub clean_event_mesh_source : String → String
clean_event_mesh_source source = remove invalid_event_mesh_source_character source

unfoldable pub clean_event_mesh_event_type : String → String
unfolding get_merged_segments
clean_event_mesh_event_type event_type =
    remove invalid_event_mesh_type_character (get_merged_segments event_type)

abbrev pub event_mesh_cleaner : Cleaner
event_mesh_cleaner = record {
  clean_source = clean_event_mesh_source;
  clean_event_type = clean_event_mesh_event_type;
}
