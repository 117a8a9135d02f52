-- ===== src/Routing.antt =====
-- src/domain/department_routing.py: how a formatted document becomes the candidates that are
-- reviewed, each with the departments suggested for it. `lower` is str.lower, and `clean_name` the
-- substitution of `_proposal_name` with the strip after it. A department's id is a number.
pub mod Suggest
pub mod Sections
pub mod Grouping
pub mod Model
mod Examples
use qnsc_kb_backend.Prelude.{ℕ, Option, List}
use qnsc_kb_backend.Text.{Text}

-- The columns of a department that the routing reads.
pub record Department : Type 0 where
  pub id : ℕ
  pub name : Text
  pub description : Text

pub record Suggestion : Type 0 where
  pub department_id : ℕ
  pub name : Text
  pub description : Text
  pub score : ℕ

-- A department that a reviewer may create.
pub record Proposal : Type 0 where
  pub name : Text
  pub description : Text

pub record Section : Type 0 where
  pub position : ℕ
  pub title : Text
  pub body_md : Text
  pub source_start : ℕ
  pub source_end : ℕ
  pub heading : Option Text

-- What `suggest_departments` gives: the selected ids, the suggestions and the proposal.
pub record Assignment : Type 0 where
  pub department_ids : List ℕ
  pub department_suggestions : List Suggestion
  pub proposed_department : Option Proposal

-- A section together with its assignment.
pub record Candidate : Type 0 where
  pub section : Section
  pub assignment : Assignment
