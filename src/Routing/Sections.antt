-- ===== src/Routing/Sections.antt =====
-- `_major_sections` of src/domain/department_routing.py. `auto_split` is the setting
-- DOCUMENT_AUTO_SPLIT_ENABLED.
use qnsc_kb_backend.Prelude.{
  ℕ, suc, ◌+◌, Bool, false, not, ◌&&◌, ◌||◌, Option, none, some, List, [], ◌∷◌, ◌++◌, ltb, leb,
  nat_beq, if◌then◌else◌, get_or, length, take, any, nat_eq, string_eq, option_eq, find,
}
use qnsc_kb_backend.Text.{
  Text, codes, is_blank, is_space, drop_while, strip, splitlines, join, find_text, decimal,
}
use qnsc_kb_backend.Routing.{Section}

abbrev is_hash : ℕ → Bool
is_hash c = nat_beq c 35

hashes : Text → ℕ
hashes [] = 0
hashes (c ∷ s) = let n = hashes s in if is_hash c then suc n else 0

starts_with_space : Text → Bool
unfolding is_space
starts_with_space [] = false
starts_with_space (c ∷ _) = is_space c

-- `^#{1,6}\s+` and `^#{1,6}\s+\S` agree on `line.strip()`, which does not end in a space.
unfoldable pub is_heading : Text → Bool
unfolding hashes starts_with_space drop_while strip
is_heading line =
    let s = strip line in
    leb 1 (hashes s) && leb (hashes s) 6 && starts_with_space (drop_while is_hash s)

-- `^##(?!#)\s+\S` on `line.strip()`
pub is_major_boundary : Text → Bool
unfolding hashes starts_with_space drop_while strip
is_major_boundary line =
    let s = strip line in nat_beq (hashes s) 2 && starts_with_space (drop_while is_hash s)

unfoldable pub lines_text : List Text → Text
unfolding join strip
lines_text lines = strip (join (codes "\n") lines)

-- The loop over the lines, with `sections` and `current` as they are before it.
pub collect : List Text → List Text → List Text → List Text
unfolding is_major_boundary lines_text is_blank
collect [] sections current =
    if is_blank (lines_text current) then sections else sections ++ lines_text current ∷ []
collect (line ∷ rest) sections current =
    let emits =
      is_major_boundary line
      && not (is_blank (lines_text current))
      && any is_major_boundary current in
    collect rest (if emits then sections ++ lines_text current ∷ [] else sections)
      ((if emits then [] else current) ++ line ∷ [])

-- line.lstrip("#").strip()[:255] of the first heading
pub heading_of : Text → Option Text
unfolding is_heading drop_while strip splitlines
heading_of body = elim (find is_heading (splitlines body)) [
  | none ↦ none
  | some line ↦ some (take 255 (strip (drop_while is_hash line)))
]

title_of : Text → ℕ → Option Text → Text
unfolding is_blank decimal
title_of title position heading =
    let part =
      if nat_beq position 1 then title else title ++ (codes " — part " ++ decimal position) in
    elim heading [ none ↦ part | some text ↦ if is_blank text then part else text ]

-- The candidates from `position` on; `cursor` is where the section before ends.
unfoldable pub place : Text → Text → ℕ → ℕ → List Text → List Section
unfolding title_of heading_of find_text
place title markdown position cursor [] = []
place title markdown position cursor (body ∷ rest) =
    let start = get_or (find_text markdown body cursor) cursor in
    let end = start + length body in
    record {
      position = position;
      title = title_of title position (heading_of body);
      body_md = body;
      source_start = start;
      source_end = end;
      heading = heading_of body;
    }
    ∷ place title markdown (position + 1) end rest

unfoldable pub bodies : Bool → Text → List Text
unfolding collect splitlines strip
bodies auto_split markdown =
    let sections = collect (splitlines markdown) [] [] in
    if ltb (length sections) 2 || not auto_split then strip markdown ∷ [] else sections

unfoldable pub major_sections : Bool → Text → Text → List Section
unfolding bodies place
major_sections auto_split title markdown = place title markdown 1 0 (bodies auto_split markdown)
