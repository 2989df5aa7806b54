-- ===== src/Server/Get.antt =====
-- A GET connection: `getResponse` behind `responseServer`.
use os_hw.Prelude.{
  ℕ, ◌≡◌, refl, sym, ap, ◌∙◌, ◌≢◌, false, none, some, [], ◌∷◌, arith, ◌==◌, if◌then◌else◌, modify,
  modify_id, modify-modify, ℤ, pos, minus_one, ◌+ℤ◌, int_laws, eqb_ℤ, Option-cases, inl, inr,
}
use os_hw.Text.{Text, text_eq, IsWord}
use os_hw.Client.Messages.{get_msg, words-get_msg}
use os_hw.Server.Table.{KeyVal, Server, search_key, entry}
use os_hw.Server.Table.Search.{lookup, lookup_of_none, search_key-some, lookup-modify}
use os_hw.Server.Handlers.{
  Locals, Outcome, closed, response_server, scan_request, get_response, sendvno_msg, lie,
  add_getters,
}

pub response_server-get_msg :
    (s : Server) (l junk : Locals) (key : Text)
    → IsWord key
    → response_server s l junk (get_msg key)
      ≡ record { server = (get_response s key).0; sent = (get_response s key).1; thread = closed }
unfolding response_server scan_request text_eq
response_server-get_msg s l junk key h = rw (words-get_msg key h)

add_sub : (n : ℤ) → n +ℤ pos 1 +ℤ minus_one ≡ n
add_sub n = omega int_laws

add_getters_back : (kv : KeyVal) → add_getters minus_one (add_getters (pos 1) kv) ≡ kv
add_getters_back kv = λ i. record kv { num_getters = add_sub kv.num_getters i }

-- The reply to a reader.
abbrev pub reply : Server → KeyVal → Text
reply s kv =
    if eqb_ℤ s.lier (pos 0)
    then sendvno_msg kv.vno kv.key kv.value
    else sendvno_msg kv.vno kv.key (lie kv.value)

some_inj : {a b : KeyVal} → some a ≡ some b → a ≡ b
some_inj e = cc

-- A GET of a key that is not locked answers with its entry and leaves the server as it was.
pub get_free :
    (s : Server) (l junk : Locals) (key : Text) {kv : KeyVal}
    → IsWord key
    → lookup key s.key_vals ≡ some kv
    → kv.lock ≡ 0
    → response_server s l junk (get_msg key)
      ≡ record { server = s; sent = reply s kv ∷ []; thread = closed }
unfolding get_response
get_free s l junk key {kv} h named free = elim (Option-cases (search_key key s.key_vals)) [
  | inl missing ↦ cc (lookup_of_none key s.key_vals missing)
  | inr (i, found) ↦ rw (response_server-get_msg s l junk key h) (get_at i found)
]
  where
    get_at :
        (i : ℕ)
        → search_key key s.key_vals ≡ some i
        → ◌≡◌ {A = Outcome}
            (record {
              server = (get_response s key).0;
              sent = (get_response s key).1;
              thread = closed;
            })
            (record { server = s; sent = reply s kv ∷ []; thread = closed })
    get_at i found =
        let same : entry s.key_vals i ≡ kv =
          some_inj (sym (search_key-some key s.key_vals found).2 ∙ named) in
        rw
          (
            get_response,
            found,
            same,
            free,
            modify-modify s.key_vals i (add_getters (pos 1)) (add_getters minus_one),
            modify_id s.key_vals i (λ e. add_getters minus_one (add_getters (pos 1) e))
                add_getters_back,
          )
          (ground arith)

-- A GET of a key that is not there is not answered, and changes nothing.
get_missing :
    (s : Server) (l junk : Locals) (key : Text)
    → IsWord key
    → lookup key s.key_vals ≡ none
    → response_server s l junk (get_msg key) ≡ record { server = s; sent = []; thread = closed }
unfolding get_response
get_missing s l junk key h missing = elim (Option-cases (search_key key s.key_vals)) [
  | inl none_found ↦ rw (response_server-get_msg s l junk key h, get_response, none_found)
  | inr (i, found) ↦ cc (sym (search_key-some key s.key_vals found).2 ∙ missing)
]

get_locked_at :
    (s : Server) (key : Text) {i : ℕ}
    → search_key key s.key_vals ≡ some i
    → (entry s.key_vals i).lock ≢ 0
    → get_response s key ≡ (record s { key_vals = modify s.key_vals i (add_getters minus_one) }, [])
unfolding get_response
get_locked_at s key {i} found locked =
    let shut : ((entry s.key_vals i).lock == 0) ≡ false = ground arith in
    rw (get_response, found, shut)

-- A GET of a locked key is not answered, and yet the count of its readers falls by one, though no
-- reader was counted; all else stays.
pub get_locked :
    (s : Server) (l junk : Locals) (key : Text) {kv : KeyVal}
    → IsWord key
    → lookup key s.key_vals ≡ some kv
    → kv.lock ≢ 0
    → ((response_server s l junk (get_msg key)).sent ≡ [])
      × ((j : Text)
          → lookup j (response_server s l junk (get_msg key)).server.key_vals
            ≡ (if text_eq j key then some (add_getters minus_one kv) else lookup j s.key_vals))
get_locked s l junk key {kv} h named locked = elim (Option-cases (search_key key s.key_vals)) [
  | inl missing ↦ cc (lookup_of_none key s.key_vals missing)
  | inr (i, found) ↦
      let (_, has_key, is_named) = search_key-some key s.key_vals found in
      let same : entry s.key_vals i ≡ kv = some_inj (sym is_named ∙ named) in
      rw
        (
          response_server-get_msg s l junk key h,
          get_locked_at s key found (λ e. locked (sym (ap (λ x. x.lock) same) ∙ e)),
        )
        (
          refl,
          λ j. lookup-modify j key s.key_vals (add_getters minus_one) found has_key ∙ (rw same),
        )
]
