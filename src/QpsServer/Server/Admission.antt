-- ===== src/QpsServer/Server/Admission.antt =====
-- What the server promises: a connection is served while fewer than the limit are held, and is
-- refused else. The goroutines of `main` implement that.
use wander.Base.{ℕ, ◌+◌, ◌≤◌, ◌<◌, ◌≡◌, refl, ap, arith, inl, inr, Bool-cases}
use wander.Base.Int.{pos, ◌+ℤ◌, ◌-ℤ◌, ltb_ℤ}
use wander.QpsServer.Event.{destroyed, total_conn_init, total_conn_closed, total_time_esp}
use wander.QpsServer.Response.{Mode, readlonly}
use wander.QpsServer.Stream.Keeps.{destroyed_count, destroyed_count-append}
use wander.QpsServer.Server.{
  Main, spawn, raise, lower, count_event, report, Step, accept, accept_fails, announce, add,
  compare_counter, event, served, refused, leak, tick, take_event, took_destroyed, tell, took_other,
  count, display, Reach,
}
use wander.QpsServer.Server.Limit.{leaving, IsCounted, Reach-IsCounted}

-- The connections that are served, refused, never given back, and closed but not yet given back.
pub record Desk : Type 0 where
  pub served_now : ℕ
  pub refused_now : ℕ
  pub lost : ℕ
  pub closing : ℕ

abbrev pub all_held : Desk → ℕ
all_held d = d.served_now + d.refused_now + d.lost + d.closing

pub data Admits (mode : Mode) (max : ℕ) (d e : Desk) : Type 0 where
  stay : e ≡ d → Admits mode max d e
  serve : all_held d < max → e ≡ record d { served_now = d.served_now + 1 } → Admits mode max d e
  refuse : max ≤ all_held d → e ≡ record d { refused_now = d.refused_now + 1 } → Admits mode max d e
  close_served :
      d.served_now ≡ e.served_now + 1
      → e ≡ record d { served_now = e.served_now; closing = d.closing + 1 }
      → Admits mode max d e
  close_refused :
      d.refused_now ≡ e.refused_now + 1
      → e ≡ record d { refused_now = e.refused_now; closing = d.closing + 1 }
      → Admits mode max d e
  lose :
      mode ≡ readlonly
      → d.served_now ≡ e.served_now + 1
      → e ≡ record d { served_now = e.served_now; lost = d.lost + 1 }
      → Admits mode max d e
  give_back : d.closing ≡ e.closing + 1 → e ≡ record d { closing = e.closing } → Admits mode max d e

abbrev pub desk : Main → Desk
desk s = record {
  served_now = s.serving;
  refused_now = s.refusing;
  lost = s.leaked;
  closing = leaving s;
}

Step-Admits :
    {mode : Mode} {max : ℕ} {s t : Main}
    → Step mode max s t
    → IsCounted max s
    → Admits mode max (desk s) (desk t)
unfolding spawn raise lower count_event report ◌+ℤ◌ ◌-ℤ◌
Step-Admits (accept s a) c = stay refl
Step-Admits (accept_fails s a) c = stay refl
Step-Admits (announce s a r) c =
    stay (ground (arith, destroyed_count-append s.channel total_conn_init))
Step-Admits (add s a) c = stay refl
Step-Admits {max} (compare_counter s a) c = elim (Bool-cases (ltb_ℤ (pos max) s.conn_counter)) [
  | inl over ↦ refuse (ground arith) (ground arith)
  | inr room ↦ serve (ground arith) (ground arith)
]
Step-Admits (event s e h n r) c = stay (ground (arith, destroyed_count-append s.channel e))
Step-Admits (served s n h r) c =
    close_served (omega arith) (ground (arith, destroyed_count-append s.channel destroyed))
Step-Admits (refused s n h r) c =
    close_refused (omega arith) (ground (arith, destroyed_count-append s.channel destroyed))
Step-Admits (leak s n m h) c = lose m (omega arith) (ground arith)
Step-Admits (tick s r) c = stay (ground (arith, destroyed_count-append s.channel total_time_esp))
Step-Admits (take_event s e rest w q) c = stay (ground (arith, ap destroyed_count q))
Step-Admits (took_destroyed s w) c = give_back (ground arith) (ground arith)
Step-Admits (tell s w r) c =
    stay (ground (arith, destroyed_count-append s.channel total_conn_closed))
Step-Admits (took_other s e w n) c = stay (ground arith)
Step-Admits (count s e w) c = stay (ground arith)
Step-Admits (display s) c = stay refl

-- Every step of the goroutines from a reachable state is a step of the promise, or changes nothing
-- of it: a connection is served only while fewer than `max` are held, it is refused only while
-- `max` are, and one is lost only in the mode readlonly.
pub Reach-Admits :
    {mode : Mode} {max : ℕ} {s t : Main}
    → Reach mode max s
    → Step mode max s t
    → Admits mode max (desk s) (desk t)
Reach-Admits r st = Step-Admits st (Reach-IsCounted r)
