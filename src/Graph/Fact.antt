-- ===== src/Graph/Fact.antt =====
-- Facts and their layers: `Fact` and `Atom` of crates/aa-graph/src/lib.rs, `FactLayer` of
-- crates/aa-protocol/src/api.rs.
use prolog_forge.Prelude.{
  ℕ, List, Bool, true, ◌&&◌, ◌≡◌, ◌↔◌, arith, PartialEq, ◌==◌, ==_iff, nat_eq, list_eq, Str, length,
}

pub data FactLayer : Type 0 where
  observed inferred candidate validated constraint : FactLayer

layer_tag : FactLayer → ℕ
layer_tag observed = 0
layer_tag inferred = 1
layer_tag candidate = 2
layer_tag validated = 3
layer_tag constraint = 4

-- The derived `PartialEq` of the layers.
unfoldable pub layer_beq : FactLayer → FactLayer → Bool
unfolding layer_tag
layer_beq a b = layer_tag a == layer_tag b

pub layer_beq_iff : (a b : FactLayer) → (layer_beq a b ≡ true) ↔ (a ≡ b)
unfolding layer_beq
layer_beq_iff a b = ground arith

instance abbrev pub layer_eq : PartialEq FactLayer
layer_eq = record { eq_test = layer_beq; eq_test_iff = layer_beq_iff }

pub record Fact : Type 0 where
  pub predicate : Str
  pub args : List Str
  pub layer : FactLayer

-- The derived `PartialEq` of facts: all three fields.
unfoldable pub fact_beq : Fact → Fact → Bool
fact_beq f g = f.predicate == g.predicate && f.args == g.args && f.layer == g.layer

pub fact_beq_iff : (f g : Fact) → (fact_beq f g ≡ true) ↔ (f ≡ g)
unfolding fact_beq
fact_beq_iff f g =
    ground (arith, ==_iff f.predicate g.predicate, ==_iff f.args g.args, ==_iff f.layer g.layer)

instance abbrev pub fact_eq : PartialEq Fact
fact_eq = record { eq_test = fact_beq; eq_test_iff = fact_beq_iff }

-- `Fact::observed`.
unfoldable pub observed_fact : Str → List Str → Fact
observed_fact pred args = record { predicate = pred; args = args; layer = observed }

unfoldable pub arity : Fact → ℕ
arity f = length f.args
