-- ===== src/Governance/Candidates.antt =====
-- The batch review of a document's split candidates: `review_candidate` of src/domain/governance.py and
-- the table's constraint in src/models/governance.py. A text is a list of code points, an
-- argument that is empty is `none`; `lstrip` and `rstrip` are Python's, `blank_line` is its "\n\n".
pub mod Positions
pub mod Spread
use qnsc_kb_backend.Prelude.{
  ℕ, zero, suc, ◌+◌, ◌/◌, max, Bool, true, false, not, ◌&&◌, ◌||◌, Option, none, some, List, [],
  ◌∷◌, ◌++◌, map, ltb, leb, nat_beq, if◌then◌else◌, get_or, length, take, find,
}
use qnsc_kb_backend.Accounts.{User}
use qnsc_kb_backend.Governance.{
  pending, forbidden, not_found, conflict, unprocessable, Result, ok, err, raise_if, Review,
  same_status, in_preparation, can_review_draft, load, ◌>>=◌, ◌>>◌,
}

pub data CandidateStatus : Type 0 where
  candidate discarded committed : CandidateStatus

abbrev pub is_active : CandidateStatus → Bool
is_active candidate = true
is_active _ = false

pub record DraftCandidate : Type 0 where
  pub id : ℕ
  pub position : ℕ
  pub title : List ℕ
  pub body_md : List ℕ
  pub source_start : ℕ
  pub source_end : ℕ
  pub department_ids : List ℕ
  pub status : CandidateStatus

pub data Operation : Type 0 where
  rename : List ℕ → Operation
  set_departments : List ℕ → Operation
  discard : Operation
  merge : Option ℕ → Option (List ℕ) → Operation
  split : Option ℕ → Option (List ℕ) → Operation
  unsupported : Operation

-- Assigns to the row with the id.
pub update : ℕ → (DraftCandidate → DraftCandidate) → List DraftCandidate → List DraftCandidate
update id f rows = map (λ c. if nat_beq c.id id then f c else c) rows

pub drop : ℕ → List ℕ → List ℕ
drop zero text = text
drop (suc n) [] = []
drop (suc n) (c ∷ text) = drop n text

-- The active row with the id.
pub find_active : ℕ → List DraftCandidate → Option DraftCandidate
find_active id rows = find (λ c. nat_beq c.id id && is_active c.status) rows

-- An active row behind the position makes room.
pub shifted : ℕ → DraftCandidate → DraftCandidate
shifted position c =
    if is_active c.status && ltb position c.position
    then record c { position = c.position + 1 }
    else c

pub make_room : ℕ → List DraftCandidate → List DraftCandidate
unfolding shifted
make_room position rows = map (shifted position) rows

module _ (lstrip rstrip : List ℕ → List ℕ) (blank_line continued : List ℕ)
    (resolve : List ℕ → Result (List ℕ)) where
  pub merged : Option (List ℕ) → DraftCandidate → DraftCandidate → DraftCandidate
  merged title first second = record first {
    body_md = rstrip first.body_md ++ (blank_line ++ lstrip second.body_md);
    source_end = max first.source_end second.source_end;
    title = take 255 (get_or title first.title);
  }

  pub merge_pair :
      Option (List ℕ) → DraftCandidate → DraftCandidate → List DraftCandidate → List DraftCandidate
  unfolding merged update
  merge_pair title first second rows =
      update second.id (λ c. record c { status = discarded })
        (update first.id (λ c. merged title c second) rows)

  pub left_half : ℕ → DraftCandidate → DraftCandidate
  left_half boundary c = record c {
    body_md = rstrip (take boundary c.body_md);
    source_end = c.source_start + length (rstrip (take boundary c.body_md));
  }

  pub right_half : ℕ → ℕ → Option (List ℕ) → DraftCandidate → DraftCandidate
  unfolding left_half drop
  right_half id boundary title c = record {
    id = id;
    position = c.position + 1;
    title = take 255 (get_or title (c.title ++ continued));
    body_md = lstrip (drop boundary c.body_md);
    source_start = (left_half boundary c).source_end;
    source_end = c.source_end;
    department_ids = c.department_ids;
    status = candidate;
  }

  pub split_rows :
      ℕ → ℕ → Option (List ℕ) → DraftCandidate → List DraftCandidate → List DraftCandidate
  unfolding left_half right_half make_room update
  split_rows new_id boundary title c rows =
      update c.id (left_half boundary) (make_room c.position rows)
      ++ right_half new_id boundary title c ∷ []

  -- split_at or len(candidate.body_md) // 2
  pub boundary_of : Option ℕ → DraftCandidate → ℕ
  boundary_of none c = length c.body_md / 2
  boundary_of (some n) c = if nat_beq n 0 then length c.body_md / 2 else n

  -- The rows after the operation; `new_id` is the key that the database gives a new row.
  pub operate : ℕ → Operation → DraftCandidate → List DraftCandidate → Result (List DraftCandidate)
  unfolding update find_active merge_pair split_rows boundary_of
  operate new_id (rename title) c rows =
      if nat_beq (length (lstrip (rstrip title))) 0
      then err unprocessable
      else ok (update c.id (λ d. record d { title = take 255 (lstrip (rstrip title)) }) rows)
  operate new_id (set_departments ids) c rows = do
    departments ← resolve ids
    ok (update c.id (λ d. record d { department_ids = departments }) rows)
  operate new_id discard c rows = ok (update c.id (λ d. record d { status = discarded }) rows)
  operate new_id (merge other title) c rows = elim other [
    | none ↦ err unprocessable
    | some other_id ↦ elim (find_active other_id rows) [
      | none ↦ err unprocessable
      | some o ↦
          if nat_beq o.id c.id
          then err unprocessable
          else ok (
              if leb c.position o.position
              then merge_pair title c o rows
              else merge_pair title o c rows)
    ]
  ]
  operate new_id (split split_at title) c rows =
      let boundary = boundary_of split_at c in
      if ltb boundary 1 || leb (length c.body_md) boundary
      then err unprocessable
      else ok (split_rows new_id boundary title c rows)
  operate new_id unsupported c rows = err unprocessable

  unfoldable pub review_candidate :
      ℕ → User → Operation → ℕ → Review → List DraftCandidate → Result (List DraftCandidate)
  unfolding operate find_active load
  review_candidate new_id user operation candidate_id r rows = do
    load user r
    raise_if (not (same_status r.draft.status pending)) conflict
    raise_if (in_preparation r.draft) conflict
    raise_if (not (can_review_draft user r.draft)) forbidden
    elim (find_active candidate_id rows) [
      | none ↦ err not_found
      | some c ↦ operate new_id operation c rows
    ]
