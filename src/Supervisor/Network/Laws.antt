-- ===== src/Supervisor/Network/Laws.antt =====
-- `refresh_network` of src/app/supervisor.cpp, called again and again.
use x1miner.Base.{
  ◌≡◌, ◌⊎◌, refl, arith, true, false, not, ◌||◌, ◌==◌, if◌then◌else◌, is_some, Bool-cases,
  Option-cases, inl, inr,
}
use x1miner.Base.Int.{ℤ}
use x1miner.Base.Double.{Double}
use x1miner.Common.{NetworkStatus}
use x1miner.Supervisor.Oracle.{NetState, Config}
use x1miner.Supervisor.Network.{
  take_difficulty, miss_difficulty, is_seen, take_status, refresh_network,
}

module _ (D : Double) where
  open D use {F}

  take_difficulty-seq :
      (c : Config) (raw : ℤ) (now : F) (s : NetState F)
      → ((take_difficulty D c raw now s).last_poll_seq ≡ s.last_poll_seq)
        × (is_some (take_difficulty D c raw now s).network_difficulty ≡ true)
  unfolding take_difficulty
  take_difficulty-seq c raw now s = (refl, refl)

  miss_difficulty-keeps :
      (c : Config) (now : F) (s : NetState F)
      → let t = (miss_difficulty D c now s).1 in
        (t.last_poll_seq ≡ s.last_poll_seq) × (t.network_difficulty ≡ s.network_difficulty)
  unfolding miss_difficulty
  miss_difficulty-keeps c now s = (ground arith, ground arith)

  take_status-keeps :
      (c : Config) (st : NetworkStatus F) (now : F) (s : NetState F)
      → let t = (take_status D c st now s).1 in
        (t.last_poll_seq ≡ s.last_poll_seq)
        × ((not (is_some s.network_difficulty) || is_some t.network_difficulty) ≡ true)
  unfolding take_status
  take_status-keeps c st now s = elim (Option-cases st.difficulty) [
    | inr (raw, e) ↦
        let (seq, known) = take_difficulty-seq c raw now s in rw e (seq, rw known (ground arith))
    | inl e ↦ let (seq, same) = miss_difficulty-keeps c now s in rw e (seq, rw same (ground arith))
  ]

  seen_same :
      (st : NetworkStatus F) (t : NetState F)
      → (st.seq ≡ 0) ⊎ (t.last_poll_seq ≡ st.seq)
      → is_seen D st t ≡ true
  unfolding is_seen
  seen_same st t h = ground arith

  refresh_seen :
      (c : Config) (st : NetworkStatus F) (now : F) (s : NetState F)
      → is_seen D st s ≡ true
      → (refresh_network D false c st now s).1 ≡ s
  unfolding refresh_network
  refresh_seen c st now s e = rw e refl

  refresh_new :
      (c : Config) (st : NetworkStatus F) (now : F) (s : NetState F)
      → is_seen D st s ≡ false
      → let t = (refresh_network D false c st now s).1 in
        (is_seen D st t ≡ true)
        × ((not (is_some s.network_difficulty) || is_some t.network_difficulty) ≡ true)
  unfolding refresh_network
  refresh_new c st now s e =
      let counted : NetState F = record s {
        last_poll_seq = if st.seq == 0 then s.last_poll_seq else st.seq;
      } in
      let (seq, known) = take_status-keeps c st now counted in
      rw e (seen_same st (take_status D c st now counted).1 (ground (arith, seq)), known)

  -- A call that reads the poller's snapshot takes it in once: called again with that snapshot, at
  -- any time, it leaves the state, and its fail streak, as it was. A difficulty that is known stays
  -- known, whatever the poll brought.
  pub refresh_network_once :
      (c : Config) (st : NetworkStatus F) (now later : F) (s : NetState F)
      → let t = (refresh_network D false c st now s).1 in
        ((refresh_network D false c st later t).1 ≡ t)
        × ((not (is_some s.network_difficulty) || is_some t.network_difficulty) ≡ true)
  refresh_network_once c st now later s = elim (Bool-cases (is_seen D st s)) [
    | inl e ↦
        let same = refresh_seen c st now s e in rw same (refresh_seen c st later s e, ground arith)
    | inr e ↦
        let (seen, known) = refresh_new c st now s e in
        (refresh_seen c st later (refresh_network D false c st now s).1 seen, known)
  ]
