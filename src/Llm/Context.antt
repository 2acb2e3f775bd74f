-- ===== src/Llm/Context.antt =====
-- The selection of the facts that a prompt shows, crates/aa-llm/src/context.rs.
pub mod Rule
pub mod Linked
pub mod Bounded
pub mod Steps
pub mod Exact
use prolog_forge.Prelude.{
  ℕ, zero, suc, List, [], ◌∷◌, ◌++◌, Bool, true, false, not, ◌&&◌, ◌==◌, nat_eq, list_eq, Str, leb,
  length, elem, set_insert, if◌then◌else◌, take, sort_by, str_le, strs_le,
}
use prolog_forge.Graph.Fact.{
  Fact, fact_eq, FactLayer, observed, inferred, candidate, validated, constraint,
}
use prolog_forge.Graph.Store.{GraphStore, all_facts}

unfoldable pub is_trusted : FactLayer → Bool
is_trusted observed = true
is_trusted inferred = true
is_trusted candidate = false
is_trusted validated = false
is_trusted constraint = false

-- By the predicate, then by the arguments.
unfoldable pub fact_le : Fact → Fact → Bool
fact_le a b =
    if a.predicate == b.predicate then strs_le a.args b.args else str_le a.predicate b.predicate

-- What the loops change. `out_seen` is the set of the facts of `out`.
pub record Walk : Type 0 where
  pub next : List Str
  pub seen_ids : List Str
  pub out : List Fact

-- A loop goes on, or the function returns from within it.
pub data Flow : Type 0 where
  going : Walk → Flow
  returned : List Fact → Flow

unfoldable pub and_then : Flow → (Walk → Flow) → Flow
and_then (going w) next = next w
and_then (returned out) next = returned out

unfoldable pub note_id : Str → Walk → Walk
note_id a w =
    if elem a w.seen_ids
    then w
    else record { next = w.next ++ a ∷ []; seen_ids = set_insert a w.seen_ids; out = w.out }

unfoldable pub note_ids : List Str → Walk → Walk
note_ids [] w = w
note_ids (a ∷ as') w = note_ids as' (note_id a w)

unfoldable pub take_fact : ℕ → Fact → Walk → Flow
take_fact max_facts f w =
    let out = w.out ++ f ∷ [] in
    let v : Walk = record { next = w.next; seen_ids = w.seen_ids; out = out } in
    if leb max_facts (length out) then returned out else going (note_ids f.args v)

unfoldable pub visit_fact : ℕ → Str → Fact → Walk → Flow
unfolding take_fact
visit_fact max_facts id f w =
    if is_trusted f.layer && (elem id f.args && not (elem f w.out))
    then take_fact max_facts f w
    else going w

unfoldable pub visit_facts : ℕ → Str → List Fact → Walk → Flow
visit_facts max_facts id [] w = going w
visit_facts max_facts id (f ∷ fs) w =
    and_then (visit_fact max_facts id f w) (λ v. visit_facts max_facts id fs v)

unfoldable pub visit_ids : ℕ → List Fact → List Str → Walk → Flow
visit_ids max_facts facts [] w = going w
visit_ids max_facts facts (id ∷ ids) w =
    and_then (visit_facts max_facts id facts w) (λ v. visit_ids max_facts facts ids v)

-- The end of a round: no id is left, or the next round.
unfoldable pub go_on : List Str → Walk → (Walk → Flow) → Flow
go_on [] w more = going w
go_on (id ∷ ids) w more = more w

-- `rounds` rounds are left, from a frontier that `next` of the walk holds.
unfoldable pub hop_loop : ℕ → ℕ → List Fact → Walk → Flow
unfolding go_on
hop_loop zero max_facts facts w = going w
hop_loop (suc rounds) max_facts facts w =
    and_then
      (visit_ids max_facts facts w.next (record { next = []; seen_ids = w.seen_ids; out = w.out }))
      (λ v. go_on v.next v (hop_loop rounds max_facts facts))

unfoldable pub facts_out : Flow → List Fact
facts_out (going w) = w.out
facts_out (returned out) = out

abbrev pub start : Str → Walk
start anchor_id = record { next = anchor_id ∷ []; seen_ids = anchor_id ∷ []; out = [] }

unfoldable pub k_hop : GraphStore → ℕ → Str → ℕ → List Fact
unfolding facts_out
k_hop graph max_facts anchor_id hops =
    facts_out (hop_loop (suc hops) max_facts (sort_by fact_le (all_facts graph)) (start anchor_id))

unfoldable pub trusted : List Fact → List Fact
trusted [] = []
trusted (f ∷ fs) = if is_trusted f.layer then f ∷ trusted fs else trusted fs

unfoldable pub everything : GraphStore → ℕ → List Fact
unfolding trusted
everything graph max_facts = take max_facts (trusted (all_facts graph))
