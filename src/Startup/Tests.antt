-- ===== src/Startup/Tests.antt =====
-- A process whose variables are set, and all of whose libraries answer.
use go_ticket_booking_app.Base.{◌≡◌, refl, true, ◌↔◌, none}
use go_ticket_booking_app.Base.Text.{bytes}
use go_ticket_booking_app.Config.{Process, Config, load}
use go_ticket_booking_app.Startup.{
  Host, no_change, signalled, main, connect, new_pool, run_migrations, new_redis_repo,
}
use go_ticket_booking_app.Startup.Readiness.{
  Ready, has_started, EachOnce, starts_exact, signal_closes_all,
}

abbrev process : Process
process = record { getenv = λ _. bytes "10"; parse_duration = λ _. none }

abbrev host : Host
host = record {
  process = process;
  dotenv = λ p. p;
  parse_config = λ _. none;
  new_with_config = λ _ _ _. none;
  ping_pool = none;
  migrate_new = λ _ _. none;
  up = no_change;
  close_migrate = (none, none);
  parse_url = λ _. none;
  ping_redis = λ _. none;
  stop = signalled;
  shutdown = none;
}

starts_exact_example :
    (has_started (main host) ≡ true) ↔ ((c : Config) × Ready host (host.dotenv host.process) c)
starts_exact_example = starts_exact host

signal_closes_all_example : EachOnce (main host)
unfolding main connect load new_pool run_migrations new_redis_repo
signal_closes_all_example = signal_closes_all host refl refl
