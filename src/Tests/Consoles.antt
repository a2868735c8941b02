-- ===== src/Tests/Consoles.antt =====
-- A console with a few commands.
use necroauth.Prelude.{◌≡◌, true, false, [], ◌∷◌, none, some, ok, pos, negsuc, arith, refl}
use necroauth.Console.{Console, Keys, browsed, update, toggle, send_cmd, log, log_all}
use necroauth.Console.Text.{is_whitespace_string, split_input, tokens}
use necroauth.Console.Command.{Game, codes, find_cmd, execute}
use necroauth.Console.File.{load_history, shutdown, write_history}
use necroauth.Console.Restart.{AreLines, shutdown-load_history}
use necroauth.Console.Bounds.{IsBounded, Step, Reach, Reach-IsBounded}
use necroauth.Console.Browse.{Lands, arrows_recall}
use necroauth.Server.Session.{bytes_eq}

abbrev console : Console
console = record {
  active = true;
  logs = [];
  history = codes "tel 1 2" ∷ codes "qqq" ∷ codes "help" ∷ [];
  cur_line_offset = 0;
  cur_history_index = negsuc 0;
  str = codes "qqq";
  focused = true;
}

abbrev game : Game
game = record {
  collider_enabled = true;
  debug_collider_enabled = false;
  debug_collider_layer = none;
  debug_occlusion_enabled = false;
  requests = [];
}

abbrev enter : Keys
enter = record { enter = true; page_up = false; page_down = false; up = false; down = false }

abbrev arrow_up : Keys
arrow_up = record { enter = false; page_up = false; page_down = false; up = true; down = false }

-- The command "qqq" is sent, which closes the console.
abbrev quit : Console
quit = record console {
  active = false;
  logs = codes "> qqq" ∷ [];
  history = codes "tel 1 2" ∷ codes "qqq" ∷ codes "help" ∷ codes "qqq" ∷ [];
  focused = false;
}

entered : Reach console quit
unfolding update toggle send_cmd log log_all is_whitespace_string split_input tokens find_cmd
    execute bytes_eq
entered = Reach.next Reach.here (Step.turn enter game (quit, _) refl)

Reach-IsBounded_example : IsBounded 32 quit
Reach-IsBounded_example =
    Reach-IsBounded 32 (omega arith) (record { logs = omega arith; history = omega arith }) entered

help_line : AreLines (codes "help" ∷ [])
help_line = (omega arith, (refl, refl, (refl, refl, (refl, refl, (refl, refl, tt)))), tt)

shutdown-load_history_example :
    load_history
      (shutdown true
        (some (write_history (codes "help" ∷ [])))
        (record console { history = codes "qqq" ∷ codes "help" ∷ [] })).0
    ≡ codes "help" ∷ codes "help" ∷ []
unfolding bytes_eq
shutdown-load_history_example =
    shutdown-load_history (record console { history = codes "qqq" ∷ codes "help" ∷ [] })
      (codes "help" ∷ []) help_line
      (omega arith, (refl, refl, (refl, refl, (refl, refl, tt))), help_line)

arrows_recall_example :
    browsed arrow_up (record console { cur_history_index = pos 0 })
    ≡ ok (record console { cur_history_index = pos 1; str = codes "qqq" })
arrows_recall_example =
    arrows_recall arrow_up (codes "tel 1 2" ∷ []) (codes "help" ∷ []) (codes "qqq")
      (record console { cur_history_index = pos 0 }) refl (omega arith) (Lands.older_one 1 0 refl)
