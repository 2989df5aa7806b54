-- ===== src/Client/Coordination/After.antt =====
-- A server of Server.c after a PUT of Client.c that may have reached it.
use os_hw.Prelude.{
  ◌≡◌, ◌≢◌, refl, sym, ap, subst, ◌∙◌, true, false, some, map, arith, if◌then◌else◌, Bool-cases,
  inl, inr, ℤ, pos, minus_one, ◌≤ℤ◌, ◌<ℤ◌,
}
use os_hw.Text.{Text, IsWord}
use os_hw.Server.Table.{KeyVal, Server}
use os_hw.Server.Table.Search.{lookup}
use os_hw.Server.Handlers.{accepted}
use os_hw.Server.Thread.{session}
use os_hw.Server.Put.{written}
use os_hw.Client.Coordination.Hosts.{Host, Truthful}
use os_hw.Client.Coordination.Writers.{Writable, messages, messages_write, messages_lier}

-- The server, once it has had what a writer sends to it.
abbrev pub server_after : (key val : Text) → ℤ → Host → Server
server_after key val vno h =
    if h.reachable
    then (session h.stack h.junk h.server accepted (map some (messages key val vno h))).server
    else h.server

abbrev pub kv_after : (key val : Text) → ℤ → Host → KeyVal → KeyVal
kv_after key val vno h kv = if h.reachable then written key val vno kv else kv

-- An entry as new as the PUT, that was older before, has its value.
pub new_value :
    (key val : Text) (vno : ℤ) (h : Host) (kv : KeyVal)
    → kv.vno <ℤ vno
    → vno ≤ℤ (kv_after key val vno h kv).vno
    → (kv_after key val vno h kv).value ≡ val
new_value key val vno h kv older newer = elim (Bool-cases h.reachable) [
  | inl up ↦ rw up refl
  | inr down ↦ absurd (
      omega (
        arith,
        older,
        subst (λ b. vno ≤ℤ (if b then written key val vno kv else kv).vno) down newer,
      ))
]

module _ (key val : Text) (vno : ℤ) (h : Host) (t : Writable key h) (word : IsWord key)
    (word' : IsWord val) where
  after_up :
      h.reachable ≡ true
      → server_after key val vno h
        ≡ (session h.stack h.junk h.server accepted (map some (messages key val vno h))).server
  after_up up =
      ap
        (λ b.
          if b
          then (session h.stack h.junk h.server accepted (map some (messages key val vno h))).server
          else h.server)
        up

  after_down : h.reachable ≡ false → server_after key val vno h ≡ h.server
  after_down down =
      ap
        (λ b.
          if b
          then (session h.stack h.junk h.server accepted (map some (messages key val vno h))).server
          else h.server)
        down

  pub after_named :
      lookup key (server_after key val vno h).key_vals ≡ some (kv_after key val vno h t.kv)
  after_named = elim (Bool-cases h.reachable) [
    | inl up ↦
        ap (λ s. lookup key s.key_vals) (after_up up)
        ∙ messages_write key val h t word word' vno up
        ∙ sym (ap (λ b. some (if b then written key val vno t.kv else t.kv)) up)
    | inr down ↦
        ap (λ s. lookup key s.key_vals) (after_down down)
        ∙ t.named
        ∙ sym (ap (λ b. some (if b then written key val vno t.kv else t.kv)) down)
  ]

  pub after_honest : (server_after key val vno h).lier ≡ pos 0
  after_honest = elim (Bool-cases h.reachable) [
    | inl up ↦
        ap (λ s. s.lier) (after_up up) ∙ messages_lier key val h t word word' vno up ∙ t.honest
    | inr down ↦ ap (λ s. s.lier) (after_down down) ∙ t.honest
  ]

  -- A server names a truthful entry, which nobody has locked, whether or not the PUT reached it.
  unfoldable pub truthful_after :
      (h' : Host)
      → h'.server ≡ server_after key val vno h
      → h'.sock ≢ minus_one
      → pos 0 ≤ℤ t.kv.vno
      → pos 0 ≤ℤ vno
      → Truthful key h'
  truthful_after h' same open_sock old new = record {
    kv = kv_after key val vno h t.kv;
    named = rw same after_named;
    free = elim (Bool-cases h.reachable) [ inl up ↦ rw up refl | inr down ↦ rw down t.free.0 ];
    word = elim (Bool-cases h.reachable) [ inl up ↦ rw up word' | inr down ↦ rw down t.word ];
    version = elim (Bool-cases h.reachable) [ inl up ↦ rw up new | inr down ↦ rw down old ];
    honest = rw same after_honest;
    open_sock = open_sock;
  }
