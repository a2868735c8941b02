-- ===== src/Console/Command.antt =====
-- Cmd.cpp: the commands of the console.
use Prim.Native.Char.{code}
use Prim.Native.String.{String}
use necroauth.Prelude.{
  ℕ, ◌+◌, ◌-◌, Bool, true, not, if◌then◌else◌, List, [], ◌∷◌, ◌++◌, length, Option, none, some, ℤ,
}
use necroauth.Console.Text.{try_parse_int}
use necroauth.Server.Session.{bytes_eq}

-- The bytes of a string.
abbrev pub codes : String → List ℕ
codes String.[] = []
codes (String.◌∷◌ c s) = code c ∷ codes s

-- What a command asks of the player, the engine and the `AuthManager`.
pub data Request : Type 0 where
  teleport_to_grid : ℤ → ℤ → Request
  stop : Request
  connect_to_auth_server : List ℕ → List ℕ → Request

-- What the commands change: `m_enabled` of the player's collider, the static fields of `Entity`, and
-- the requests made so far.
pub record Game : Type 0 where
  pub collider_enabled : Bool
  pub debug_collider_enabled : Bool
  pub debug_collider_layer : Option ℤ
  pub debug_occlusion_enabled : Bool
  pub requests : List Request

pub data Cmd : Type 0 where
  help : Cmd
  teleport_to_grid : Cmd
  no_clip : Cmd
  toggle_collision_debug : Cmd
  toggle_occlusion_debug : Cmd
  quit_application : Cmd
  connect_to_auth_server : Cmd

-- `m_cmds.find`, in the commands that `Console::Init` registers.
unfoldable pub find_cmd : List ℕ → Option Cmd
find_cmd name =
    if bytes_eq name (codes "help")
    then some Cmd.help
    else (if bytes_eq name (codes "tel")
        then some Cmd.teleport_to_grid
        else (if bytes_eq name (codes "noclip")
            then some Cmd.no_clip
            else (if bytes_eq name (codes "dcoll")
                then some Cmd.toggle_collision_debug
                else (if bytes_eq name (codes "doccl")
                    then some Cmd.toggle_occlusion_debug
                    else (if bytes_eq name (codes "qqq")
                        then some Cmd.quit_application
                        else (if bytes_eq name (codes "authconnect")
                            then some Cmd.connect_to_auth_server
                            else none))))))

-- What a command returns: the lines it logs, the game, and its value.
abbrev pub Outcome : Type 0
Outcome = List (List ℕ) × Game × ℕ

abbrev pub ask : Game → Request → Game
ask g r = record g { requests = g.requests ++ r ∷ [] }

-- `Cmd_Help`
abbrev pub cmd_help : Game → Outcome
cmd_help g = (
  codes "'teleport' (x, y): teleports the player to the x,y grid coordinates."
      ∷ codes "'noclip' (): toggles collision detection for the player."
      ∷ codes "'dcoll' (): toggles collision debug for all entities."
      ∷ codes "'doccl' (): toggles occlusion debug for entities that can occlude the player."
      ∷ codes "'qqq' (): quits the game."
      ∷ codes "'authconnect' (): connects to the auth server."
      ∷ [],
  g,
  1,
)

-- `Cmd_TeleportToGrid`; there are fewer than ten arguments where their number is printed.
abbrev pub cmd_teleport_to_grid : List (List ℕ) → Game → Outcome
cmd_teleport_to_grid (name ∷ x ∷ y ∷ rest) g =
    ([], ask g (Request.teleport_to_grid (try_parse_int x) (try_parse_int y)), 0)
cmd_teleport_to_grid args g = (
  (codes "CMD_TeleportToGrid: requires 2 arguments [x, y], but only "
        ++ (b'0' + (length args - 1)) ∷ codes " were passed.")
      ∷ [],
  g,
  1,
)

-- `Cmd_NoClip`
abbrev pub cmd_no_clip : Game → Outcome
cmd_no_clip g = (
  (codes "No Clip: " ++ (if g.collider_enabled then codes "enabled" else codes "disabled")) ∷ [],
  record g { collider_enabled = not g.collider_enabled },
  0,
)

abbrev pub collision_line : Game → Outcome
collision_line g = (
  (if g.debug_collider_enabled
        then codes "Debug Collision: enabled."
        else codes "Debug Collision: disabled.")
      ∷ [],
  g,
  0,
)

-- `Cmd_ToggleCollisionDebug`
abbrev pub cmd_toggle_collision_debug : List (List ℕ) → Game → Outcome
cmd_toggle_collision_debug (name ∷ layer ∷ rest) g =
    collision_line (record g {
      debug_collider_layer = some (try_parse_int layer);
      debug_collider_enabled = true;
    })
cmd_toggle_collision_debug args g =
    collision_line (record g { debug_collider_enabled = not g.debug_collider_enabled })

-- `Cmd_ToggleOcclusionDebug`
abbrev pub cmd_toggle_occlusion_debug : Game → Outcome
cmd_toggle_occlusion_debug g =
    let h = record g { debug_occlusion_enabled = not g.debug_occlusion_enabled } in
    (
      (if h.debug_occlusion_enabled
            then codes "Debug Occlusion: enabled."
            else codes "Debug Occlusion: disabled.")
          ∷ [],
      h,
      0,
    )

-- `Cmd_ConnectToAuthServer`
abbrev pub cmd_connect_to_auth_server : List (List ℕ) → Game → Outcome
cmd_connect_to_auth_server (name ∷ username ∷ password ∷ rest) g = (
  (codes "Attempting to connect as : '" ++ (username ++ codes "'...")) ∷ [],
  ask g (Request.connect_to_auth_server username password),
  0,
)
cmd_connect_to_auth_server args g =
    (codes "CMD_ConnectToAuthServer: requires 2 arguments [username, password] ." ∷ [], g, 1)

-- `Cmd::Execute`
unfoldable pub execute : Cmd → List (List ℕ) → Game → Outcome
execute Cmd.help args g = cmd_help g
execute Cmd.teleport_to_grid args g = cmd_teleport_to_grid args g
execute Cmd.no_clip args g = cmd_no_clip g
execute Cmd.toggle_collision_debug args g = cmd_toggle_collision_debug args g
execute Cmd.toggle_occlusion_debug args g = cmd_toggle_occlusion_debug g
execute Cmd.quit_application args g = ([], ask g Request.stop, 0)
execute Cmd.connect_to_auth_server args g = cmd_connect_to_auth_server args g
