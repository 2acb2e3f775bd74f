-- ===== src/Rules/Ast.antt =====
-- The Datalog syntax tree, crates/aa-rules/src/ast.rs.
use prolog_forge.Prelude.{List, [], ◌∷◌, Bool, true, false, ◌&&◌, Str}

pub data Term : Type 0 where
  const : Str → Term
  var : Str → Term

pub record Atom : Type 0 where
  pub predicate : Str
  pub args : List Term

pub record Rule : Type 0 where
  pub head : Atom
  pub body : List Atom

pub record Program : Type 0 where
  pub rules : List Rule
  pub facts : List Atom

unfoldable pub is_const : Term → Bool
is_const (const c) = true
is_const (var v) = false

unfoldable pub all_const : List Term → Bool
unfolding is_const
all_const [] = true
all_const (t ∷ ts) = is_const t && all_const ts

unfoldable pub is_empty : List Atom → Bool
is_empty [] = true
is_empty (a ∷ as') = false

unfoldable pub is_ground_fact : Rule → Bool
unfolding is_empty all_const
is_ground_fact r = is_empty r.body && all_const r.head.args
