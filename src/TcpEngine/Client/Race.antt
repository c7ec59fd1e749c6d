-- ===== src/TcpEngine/Client/Race.antt =====
-- The entries of `conns` on the connecting side of tcpengine/tcpengine.go, where `clientHandle`
-- gives an address back before it deletes the entry under that address.
use wander.Base.{ℕ, ◌≡◌, refl, false, [], ◌∷◌, none, arith}
use wander.Base.Assoc.{lookup, insert, lookup-erase}
use wander.TcpEngine.Engine.{Config, locked_section, spawned, forget_conn, leave_conn}
use wander.TcpEngine.Client.{
  running, uncounted, returned, Handle, Client, connected, after_turn, after_receive, after_dial,
  after_leave, after_return, after_forget, turn, receive, dial, leave, give_back, forget, Reach,
  here, next, started,
}

abbrev pub unlimited : Config
unlimited = record { max_concurrent = 0; exitmax = false; nomap = false }

module _ (k c1 c2 : ℕ) where
  -- A connector with one address connects, its connection ends, and it connects again.
  abbrev first_alive : Client
  first_alive =
      let s = after_receive k [] (after_turn unlimited (started unlimited (k ∷ []))) in
      after_turn unlimited (after_dial (connected c1) s)

  abbrev pub handle_of : ℕ → Handle
  handle_of c = record { connidx = k; conn = c; phase = running }

  abbrev given_back : Client
  given_back =
      after_return [] [] (record (handle_of c1) { phase = uncounted })
        (after_leave [] [] (handle_of c1) first_alive)

  abbrev second_alive : Client
  second_alive = after_turn unlimited (after_dial (connected c2) (after_receive k [] given_back))

  abbrev raced : Client
  raced =
      after_forget unlimited (handle_of c2 ∷ []) [] (record (handle_of c1) { phase = returned })
        second_alive

  Reach-raced : Reach unlimited (started unlimited (k ∷ [])) raced
  unfolding locked_section spawned leave_conn
  Reach-raced =
      next
        (next
          (next
            (next
              (next
                (next
                  (next
                    (next (next (next here (turn refl refl)) (receive k [] refl refl refl refl))
                      (dial (connected c1) refl refl refl))
                    (turn refl refl))
                  (leave [] [] (handle_of c1) refl refl refl))
                (give_back [] [] (record (handle_of c1) { phase = uncounted }) refl refl refl))
              (receive k [] refl refl refl refl))
            (dial (connected c2) refl refl refl))
          (turn refl refl))
        (forget (handle_of c2 ∷ []) [] (record (handle_of c1) { phase = returned }) refl refl refl)

  -- For every address a state is reached in which the one handle is running and counted as alive,
  -- but its connection is not in `conns`: a shutdown does not close it.
  pub alive_without_entry :
      (s : Client) × Reach unlimited (started unlimited (k ∷ [])) s
      × (s.handles ≡ handle_of c2 ∷ [])
      × (s.eng.alive_count ≡ 1)
      × (lookup k s.eng.conns ≡ none)
  unfolding locked_section spawned forget_conn leave_conn
  alive_without_entry = (
    raced,
    Reach-raced,
    refl,
    refl,
    ground (arith, lookup-erase k k (insert k c2 (insert k c1 []))),
  )
