-- ===== src/Llm/Propose/Cached.antt =====
-- A request that was answered before is answered from the cache.
use prolog_forge.Prelude.{
  Option, none, some, Bool, true, ◌≡◌, refl, ap, nat_eq, ==_self, Str, map_get-map_insert, Result,
  ok, err, if_true, ◌∙◌,
}
use prolog_forge.Graph.Store.{GraphStore}
use prolog_forge.Llm.Provider.{
  LlmRequest, LlmResponse, LlmError, Provider, ResponseCache, Hasher, key, get, put,
}
use prolog_forge.Llm.Propose.{
  ProposeRequest, Reader, fetched, fetch, request_of, settle_read, propose_fetched, propose,
}

get-put :
    (hash : Hasher) (name : Str) (req : LlmRequest) (raw : LlmResponse) (cache : ResponseCache)
    → get hash name req (put hash name req raw cache) ≡ some raw
unfolding get put
get-put hash name req raw cache =
    map_get-map_insert (key hash name req) (key hash name req) raw cache
    ∙ if_true _ (some raw) _ (==_self (key hash name req))

fetched_holds :
    (hash : Hasher) (provider : Provider) (req : LlmRequest) (cache : ResponseCache)
    (o : Option LlmResponse) (reply : Result LlmError LlmResponse) (raw : LlmResponse) (hit : Bool)
    → get hash provider.name req cache ≡ o
    → (fetched hash provider req cache o reply).0 ≡ ok (raw, hit)
    → get hash provider.name req (fetched hash provider req cache o reply).1 ≡ some raw
unfolding fetched
fetched_holds hash provider req cache (some old) reply raw hit found h = found ∙ ap some (cc)
fetched_holds hash provider req cache none (err e) raw hit found h = cc
fetched_holds hash provider req cache none (ok r) raw hit found h =
    get-put hash provider.name req r cache ∙ ap some (cc)

fetch_hit :
    (hash : Hasher) (provider : Provider) (req : LlmRequest) (cache : ResponseCache)
    (raw : LlmResponse)
    → get hash provider.name req cache ≡ some raw
    → fetch hash provider req cache ≡ (ok (raw, true), cache)
unfolding fetch fetched
fetch_hit hash provider req cache raw h = rw (h, fetched) refl

-- Once a run has had a reply, every later run of the same request over the cache that it left, whatever
-- graph the request comes from and whatever a provider of that name answers, has the same reply, from
-- the cache, and leaves the cache.
pub propose_cached :
    (hash : Hasher) (read : Reader) (provider later : Provider) (req req' : ProposeRequest)
    (graph graph' : GraphStore) (cache : ResponseCache) (raw : LlmResponse) (hit : Bool)
    → (fetch hash provider (request_of req graph) cache).0 ≡ ok (raw, hit)
    → later.name ≡ provider.name
    → request_of req' graph' ≡ request_of req graph
    → let kept = (fetch hash provider (request_of req graph) cache).1 in
      let answer = settle_read raw true (read raw.text) graph' in
      propose hash read later req' graph' kept ≡ (answer.0, (answer.1, kept))
unfolding propose propose_fetched
propose_cached hash read provider later req req' graph graph' cache raw hit answered name same =
    let lreq = request_of req graph in
    let kept = (fetch hash provider lreq cache).1 in
    let there : get hash provider.name lreq kept ≡ some raw =
      unfold fetch in
      fetched_holds hash provider lreq cache (get hash provider.name lreq cache)
        (provider.complete lreq) raw hit refl answered in
    let again : fetch hash later lreq kept ≡ (ok (raw, true), kept) =
      fetch_hit hash later lreq kept raw (ap (λ n. get hash n lreq kept) name ∙ there) in
    rw (same, again, propose_fetched) refl
