-- ===== src/Cleaner/Laws.antt =====
-- The characters of a cleaned text, and cleaning twice.
use eventing_manager.Base.{
  ◌≡◌, String, ◌<>◌, true, false, List, [], ◌∷◌, not, ltb, length, arith, ◌≤◌, ◌<◌, Bool-cases, inl,
  inr, All, refl,
}
use eventing_manager.Base.Text.{split, all_chars, has_char, count_char}
use eventing_manager.Base.Text.Laws.{
  All-split, length-split, count_char-append, count_char-remove, count_char_of_no_char,
  has_char-remove, all_chars-remove,
}
use eventing_manager.Cleaner.{
  invalid_source_character, invalid_event_type_character, clean_jetstream_source,
  clean_jetstream_event_type, clean_event_mesh_event_type, get_merged_segments, merge_segments,
  invalid_event_mesh_type_character,
}

-- A cleaned source has no separator of a subject or of a key.
pub clean_jetstream_source-no_separator :
    (source : String)
    → (has_char b'.' (clean_jetstream_source source) ≡ false)
      × (has_char b'/' (clean_jetstream_source source) ≡ false)
unfolding clean_jetstream_source
clean_jetstream_source-no_separator source = (
  has_char-remove invalid_source_character b'.' source refl,
  has_char-remove invalid_source_character b'/' source refl,
)

pub clean_jetstream_event_type-no_slash :
    (t : String) → has_char b'/' (clean_jetstream_event_type t) ≡ false
unfolding clean_jetstream_event_type
clean_jetstream_event_type-no_slash t = has_char-remove invalid_event_type_character b'/' t refl

dots-merge_segments :
    (a b : String) (rest : List String)
    → All (λ part. has_char b'.' part ≡ false) (a ∷ b ∷ rest)
    → count_char b'.' (merge_segments (a ∷ b ∷ rest)) ≡ 2
unfolding merge_segments
dots-merge_segments a b [] (ha, (hb, _)) = omega (
  arith,
  count_char-append b'.' "." (a <> ("." <> b)),
  count_char-append b'.' a ("." <> b),
  count_char-append b'.' "." b,
  count_char_of_no_char b'.' a ha,
  count_char_of_no_char b'.' b hb,
)
dots-merge_segments a b (c ∷ rest) (ha, hs) = omega (
  arith,
  count_char-append b'.' a (merge_segments (b ∷ c ∷ rest)),
  count_char_of_no_char b'.' a ha,
  dots-merge_segments b c rest hs,
)

dots-merge_of_long :
    (parts : List String)
    → 3 < length parts
    → All (λ part. has_char b'.' part ≡ false) parts
    → count_char b'.' (merge_segments parts) ≡ 2
dots-merge_of_long [] h k = absurd (omega arith)
dots-merge_of_long (a ∷ []) h k = absurd (omega arith)
dots-merge_of_long (a ∷ b ∷ rest) h k = dots-merge_segments a b rest k

dots-get_merged_segments : (t : String) → count_char b'.' (get_merged_segments t) ≤ 2
unfolding get_merged_segments
dots-get_merged_segments t = elim (Bool-cases (ltb 3 (length (split b'.' t)))) [
  | inl long ↦
      rw long (omega (arith, dots-merge_of_long (split b'.' t) (ground arith) (All-split b'.' t)))
  | inr short ↦ rw short (ground (arith, length-split b'.' t))
]

-- An event type cleaned for EventMesh has letters, digits and dots only, and at most two dots.
pub clean_event_mesh_event_type_lem :
    (t : String)
    → (all_chars (λ n. not (invalid_event_mesh_type_character n)) (clean_event_mesh_event_type t)
        ≡ true)
      × (count_char b'.' (clean_event_mesh_event_type t) ≤ 2)
unfolding clean_event_mesh_event_type
clean_event_mesh_event_type_lem t = (
  all_chars-remove invalid_event_mesh_type_character (get_merged_segments t),
  omega (
    arith,
    count_char-remove invalid_event_mesh_type_character b'.' (get_merged_segments t) refl,
    dots-get_merged_segments t,
  ),
)
