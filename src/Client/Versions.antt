-- ===== src/Client/Versions.antt =====
-- The version number that a PUT gives to its write, against the versions that the replies show.
use os_hw.Prelude.{
  ℕ, ◌≤◌, ◌<◌, ◌≡◌, ap, true, false, some, List, arith, ltb, get_elem?, get_or_of_get_elem?,
  Bool-cases, inl, inr, ℤ, pos, eqb_ℤ, ◌≤ℤ◌, ◌<ℤ◌, ◌+ℤ◌, int_laws, ◌≢◌,
}
use os_hw.Text.{Text, codes, text_eq}
use os_hw.Server.Table.{KeyVal, init_key_val}
use os_hw.Client.Messages.{update_msg}
use os_hw.Client.Select.{responded, responses}
use os_hw.Client.Select.Put.{PutChoice, has_version, select_server-put}
use os_hw.Client.Select.Replies.{count_if, eqb_ℤ_iff}
use os_hw.Client.Connect.{connect_thread, write_choice, updating, targets}

-- No reply has a version above `m`.
abbrev pub UpTo : ℤ → List KeyVal → Type 0
UpTo m kvs = (j : ℕ) (kv : KeyVal) → get_elem? kvs j ≡ some kv → responded kv ≡ true → kv.vno ≤ℤ m

-- A write quorum answered.
abbrev pub WriteQuorum : (nw responses_g : ℕ) → List KeyVal → Type 0
WriteQuorum nw responses_g kvs = (0 < nw) × (nw ≤ responses kvs) × (nw ≤ responses_g)

module _ (nr nw responses_g : ℕ) (key val : Text) (kvs : List KeyVal) where
  -- A PUT sends the value with the version after the chosen one to all servers that answered.
  pub put_update :
      WriteQuorum nw responses_g kvs
      → (i : ℕ) × (choice : PutChoice kvs i) × (connect_thread nr nw responses_g
            (codes "PUT")
            key
            val
            kvs
          ≡ updating
              (choice.reply.vno +ℤ pos 1)
              (update_msg key val (choice.reply.vno +ℤ pos 1))
              (targets 0 kvs))
  unfolding connect_thread text_eq write_choice
  put_update q =
      let (i, liars, chosen, choice) = select_server-put nr nw kvs q.0 q.1 in
      let enough : ltb responses_g nw ≡ false = ground arith in
      (
        i,
        choice,
        rw (connect_thread, enough, chosen, get_or_of_get_elem? kvs i init_key_val choice.at),
      )

  -- If more servers have the newest version `m` than have any other, a PUT writes version `m + 1`.
  pub put_fresh_version :
      (m : ℤ)
      → WriteQuorum nw responses_g kvs
      → ((v : ℤ) → v ≢ m → count_if (has_version v) kvs < count_if (has_version m) kvs)
      → connect_thread nr nw responses_g (codes "PUT") key val kvs
        ≡ updating (m +ℤ pos 1) (update_msg key val (m +ℤ pos 1)) (targets 0 kvs)
  put_fresh_version m q top =
      let (i, choice, e) = put_update q in
      elim (Bool-cases (eqb_ℤ choice.reply.vno m)) [
        | inl same ↦ rw (← (eqb_ℤ_iff choice.reply.vno m).0 same) e
        | inr other ↦
            let less =
              top choice.reply.vno (λ x. ground (arith, (eqb_ℤ_iff choice.reply.vno m).1 x)) in
            absurd (omega (arith, choice.most m))
      ]

  -- If more servers have some other version than have the newest version `m`, a PUT writes a version
  -- that is not above `m`: a number that the key has already had.
  pub put_stale_version :
      (m v : ℤ)
      → WriteQuorum nw responses_g kvs
      → UpTo m kvs
      → count_if (has_version m) kvs < count_if (has_version v) kvs
      → (n : ℤ) × (connect_thread nr nw responses_g (codes "PUT") key val kvs
          ≡ updating n (update_msg key val n) (targets 0 kvs))
        × (n ≤ℤ m)
  put_stale_version m v q up less =
      let (i, choice, e) = put_update q in
      (
        choice.reply.vno +ℤ pos 1,
        e,
        elim (Bool-cases (eqb_ℤ choice.reply.vno m)) [
          | inl same ↦ absurd (
              omega (
                arith,
                choice.most v,
                ap (λ w. count_if (has_version w) kvs) ((eqb_ℤ_iff choice.reply.vno m).0 same),
              ))
          | inr other ↦
              let le = up i choice.reply choice.at choice.answered in
              let below : choice.reply.vno <ℤ m = ground arith in omega int_laws
        ],
      )
