-- ===== src/Collection/ByScan.antt =====
-- About the path over a primary id in `find_with` of crates/nookdb-core/src/collection.rs.
use nookdb.Prelude.{
  ap, sym, Bool, true, false, ◌≡◌, ◌∙◌, refl, inl, inr, Bool-cases, none, some, List, [], ◌∷◌, All,
  filter, arith,
}
use nookdb.Bytes.{beq_sound, Bytes, beq, beq_iff}
use nookdb.Codec.Keys.{IsName}
use nookdb.Collection.{Collection}
use nookdb.Collection.Filter.{matches, cond_holds}
use nookdb.Collection.Reads.{
  all_docs, by_id, candidates, decode_all, decode_found, find_with, field_ty,
}
use nookdb.Database.{Database}
use nookdb.Database.Atomic.{view-IsSorted, view, read_lem}
use nookdb.Doc.{decode_document}
use nookdb.Error.{ok, ◌>>=◌}
use nookdb.Json.{
  Value, Members, object, string, end, member, External, get, get_member, all_members, value_eq,
}
use nookdb.Query.{QueryOptions, apply}
use nookdb.Redb.{Redb, IsLawful}
use nookdb.Rows.{Below, Row, Rows, lookup, IsSorted}
use nookdb.Rows.Laws.{Below-lookup}
use nookdb.Storage.Pure.{read_get, read_list}

-- A row under its id: its bytes decode to a document with this id.
pub record IsFiled {N F : Type 0} (x : External N F) (c : Collection F) (row : Row) : Type 0 where
  pub doc : Value N
  pub decoded : decode_document x row.1 c.codec ≡ ok doc
  pub filed : get doc c.ir.id_field ≡ some (string row.0)

pub all_members-get_member :
    {N : Type 0} (p : Bytes → Value N → Bool) (f : Bytes) (v : Value N) (ms : Members N)
    → all_members p ms ≡ true
    → get_member f ms ≡ some v
    → p f v ≡ true
unfolding all_members get_member
all_members-get_member p f v end h g = ground (arith, g)
all_members-get_member p f v (member j w ms) h g =
    ground (arith, h, g, beq_iff j f, all_members-get_member p f v ms)

module _ {N F T : Type 0} (x : External N F) (r : Redb T) (law : IsLawful r) (c : Collection F)
    (db : Database T) (name : IsName c.name) where
  pub scan_lem : all_docs x r c db ≡ decode_all x r c (view r law db c.name)
  unfolding all_docs view
  scan_lem = rw (read_lem r law, read_list r law _ c.name name) refl

module _ {N F T : Type 0} (x : External N F) (r : Redb T) (c : Collection F) (obj : Members N)
    (k : Bytes) (asks : get_member c.ir.id_field obj ≡ some (string k)) where
  unfoldable pub is_asked : Value N → Bool
  is_asked d = matches x d (object obj)

  other_id :
      (j : Bytes) (d : Value N)
      → get d c.ir.id_field ≡ some (string j)
      → beq j k ≡ false
      → is_asked d ≡ false
  unfolding is_asked matches cond_holds value_eq
  other_id j d g ne = elim (Bool-cases (matches x d (object obj))) [
    | inr u ↦ u
    | inl m ↦
        let holds : cond_holds x (get d c.ir.id_field) (string k) ≡ true =
          all_members-get_member (λ field cond. cond_holds x (get d field) cond) c.ir.id_field
            (string k) obj m asks in
        let same : beq j k ≡ true = rw g at holds in absurd (ground (arith, same, ne))
  ]

  -- What the scan and the lookup find of the same rows.
  pub record SameFound (rows : Rows) : Type 0 where
    pub docs : List (Value N)
    pub scanned : decode_all x r c rows ≡ ok docs
    pub one : List (Value N)
    pub looked_up : decode_found x r c (lookup k rows) ≡ ok one
    pub same : filter is_asked docs ≡ filter is_asked one

  nothing_there :
      (rows : Rows) → lookup k rows ≡ none → (h : SameFound rows) → filter is_asked h.docs ≡ []
  unfolding decode_found
  nothing_there rows e h =
      let o : ok [] ≡ ok h.one = rw e at h.looked_up in
      let none_one : h.one ≡ [] = ground (arith, o) in
      h.same ∙ ap (λ docs. filter is_asked docs) none_one

  absent : (j : Bytes) (rows : Rows) → Below j rows → beq j k ≡ true → lookup k rows ≡ none
  absent j rows b e = rw (beq_sound j k e) at (Below-lookup j rows b)

  pub found_same : (rows : Rows) → IsSorted rows → All (IsFiled x c) rows → SameFound rows
  unfolding decode_all lookup decode_found
  found_same [] s filed = record {
    docs = [];
    scanned = refl;
    one = [];
    looked_up = refl;
    same = refl;
  }
  found_same ((j, v) ∷ rows) s filed =
      let rest = found_same rows s.1 filed.1 in
      let d = filed.0.doc in
      let all : decode_all x r c ((j, v) ∷ rows) ≡ ok (d ∷ rest.docs) =
        rw (filed.0.decoded, rest.scanned) refl in
      elim (Bool-cases (beq j k)) [
        | inl e ↦ record {
          docs = d ∷ rest.docs;
          scanned = all;
          one = d ∷ [];
          looked_up = rw (e, filed.0.decoded) refl;
          same = rw (nothing_there rows (absent j rows s.0 e) rest) refl;
        }
        | inr e ↦ record {
          docs = d ∷ rest.docs;
          scanned = all;
          one = rest.one;
          looked_up = rw (e) rest.looked_up;
          same = ground (arith, other_id j d filed.0.filed e, rest.same);
        }
      ]

  module _ (law : IsLawful r) (db : Database T) (name : IsName c.name) where
    pub by_id_lem : by_id x r c db k ≡ decode_found x r c (lookup k (view r law db c.name))
    unfolding by_id view
    by_id_lem = rw (read_lem r law, read_get r law _ c.name k name) refl

    pub candidates-by_id : candidates x r c db (object obj) ≡ by_id x r c db k
    unfolding candidates
    candidates-by_id = rw asks refl

    -- Over a lawful engine, where each document is stored under its id: a `find_with` whose filter
    -- asks for a primary id, and possibly for more, answers exactly what the filter over a scan of
    -- the whole collection answers, for every sort, offset and limit.
    pub find_with-scan :
        (o : QueryOptions)
        → All (IsFiled x c) (view r law db c.name)
        → find_with x r c db (object obj) o ≡ (do
          docs ← all_docs x r c db
          apply x o (filter (λ d. matches x d (object obj)) docs) c.ir.id_field (field_ty c.ir))
    unfolding find_with is_asked
    find_with-scan o filed =
        let both = found_same (view r law db c.name) (view-IsSorted r law db c.name) filed in
        rw (candidates-by_id, by_id_lem, both.looked_up, scan_lem x r law c db name, both.scanned)
          (ap (λ docs. apply x o docs c.ir.id_field (field_ty c.ir)) (sym both.same))
