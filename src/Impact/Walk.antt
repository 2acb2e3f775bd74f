-- ===== src/Impact/Walk.antt =====
-- The calls that a test leads to, and the identifiers that they mention.
use prolog_forge.Prelude.{
  List, some, true, ◌≡◌, Str, In, Map, map_get, contains_key, nat_eq, list_eq,
}

-- A function that the test calls, directly or through functions of the catalog.
pub data Calls (fn_idents : Map Str (List Str)) (start : Str) : Str → Type 0 where
  itself : Calls fn_idents start start
  through :
      (f g : Str) (idents : List Str)
      → Calls fn_idents start f
      → map_get f fn_idents ≡ some idents
      → In g idents
      → contains_key g fn_idents ≡ true
      → Calls fn_idents start g

-- One of them mentions the identifier.
abbrev pub Mentions : Map Str (List Str) → Str → Str → Type 0
Mentions fn_idents start ident =
    (f : Str) × (idents : List Str) × Calls fn_idents start f
    × (map_get f fn_idents ≡ some idents)
    × In ident idents
