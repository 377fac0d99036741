-- ===== src/Config/Servers/Behaviour.antt =====
-- What read_config_server of src-cpp/server/server.cc reads of the delays and of the failure to
-- inject.
use chain_replication.Base.{
  ℕ, ◌+◌, ◌%◌, ℤ, pos, negsuc, String, str_eq, ◌≡◌, sym, ap, ◌⊎◌, inl, inr, true, false, some,
  if◌then◌else◌,
}
use chain_replication.Exec.{ok, ◌>>=◌}
use chain_replication.Server.State.{FailScenario, Process}
use chain_replication.Config.{Json, string_at, int_at}
use chain_replication.Config.Keys
use chain_replication.Config.Decimal.{atoi}
use chain_replication.Config.Servers.{scenario_of, read_fail_seq, read_send_delay, read_behaviour}

pub record Behaviour : Type 0 where
  pub interval : ℤ
  pub send_delay : ℤ
  pub scenario : FailScenario
  pub fail_seq : ℤ

-- The number that a word stands for, where `random` is what `rand()` gives.
abbrev pub fail_seq_of : ℕ → String → ℤ
fail_seq_of random word = if str_eq word Keys.random then pos (random % 7 + 2) else atoi word

module _ {A : Type 0} (json : Json A) (random : ℕ) where
  -- The server of `v` runs from the start and behaves as `b` says. The number of messages after
  -- which it fails and the delay of its sends may be left out.
  pub record Behaves (root v : json.Value) (b : Behaviour) : Type 0 where
    pub at_once : int_at json Keys.start_delay v ≡ ok (pos 0)
    pub word : String
    pub word_here : string_at json Keys.fail_scenario v ≡ ok word
    pub scenario : scenario_of word ≡ some b.scenario
    pub config : json.Value
    pub config_here : json.get Keys.config root ≡ ok config
    pub interval : int_at json Keys.server_report_interval config ≡ ok b.interval
    pub send_delay :
        ((json.is_member Keys.extend_send_delay config ≡ ok false) × (b.send_delay ≡ pos 0))
        ⊎ ((json.is_member Keys.extend_send_delay config ≡ ok true)
            × (int_at json Keys.extend_send_delay config ≡ ok b.send_delay))
    pub fail_seq :
        ((json.is_member Keys.fail_seq v ≡ ok false) × (b.fail_seq ≡ negsuc 0))
        ⊎ ((number : String) × (json.is_member Keys.fail_seq v ≡ ok true)
            × (string_at json Keys.fail_seq v ≡ ok number)
            × (b.fail_seq ≡ fail_seq_of random number))

  module _ {root v : json.Value} {b : Behaviour} (h : Behaves root v b) (p : Process A) where
    send_delay_lem : read_send_delay json root p ≡ (ok b.send_delay, p)
    unfolding read_send_delay ◌>>=◌
    send_delay_lem = elim h.send_delay [
      | inl (missing, zero) ↦ rw (h.config_here, missing) (ap (λ z. (ok z, p)) (sym zero))
      | inr (set, here) ↦ rw (h.config_here, set) (ap (λ r. (r, p)) here)
    ]

    fail_seq_lem : read_fail_seq json random v p ≡ (ok b.fail_seq, p)
    unfolding read_fail_seq ◌>>=◌
    fail_seq_lem = elim h.fail_seq [
      | inl (missing, none_set) ↦ rw missing (ap (λ z. (ok z, p)) (sym none_set))
      | inr (number, set, here, same) ↦ rw (set, here) (ap (λ z. (ok z, p)) (sym same))
    ]

  abbrev pub behaving : Behaviour → Process A → Process A
  behaving b p = record p {
    server = record p.server {
      start_delay = pos 0;
      extend_send_delay = b.send_delay;
      fail_scenario = b.scenario;
      fail_seq = b.fail_seq;
      internal_crashing = false;
    };
    heartbeat_interval = b.interval;
  }

  pub read_behaviour_lem :
      {root v : json.Value} (b : Behaviour) (p : Process A)
      → Behaves root v b
      → read_behaviour json random root v p ≡ (ok tt, behaving b p)
  unfolding read_behaviour ◌>>=◌
  read_behaviour_lem b p h =
      rw (h.at_once, h.config_here, h.interval)
        (rw (send_delay_lem h q) (rw (h.word_here, h.scenario) (rw (fail_seq_lem h r))))
    where
      q : Process A
      q = record p {
        server = record p.server { start_delay = pos 0 };
        heartbeat_interval = b.interval;
      }

      r : Process A
      r = record q {
        server = record q.server { extend_send_delay = b.send_delay; fail_scenario = b.scenario };
      }
