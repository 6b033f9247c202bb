-- ===== src/Config.antt =====
-- src/config.c, src/config.h: the server properties and the table of them. A property is a place in
-- the list of fields, as each entry of the table has a field of its own.
pub mod Read
pub mod Laws
pub mod ReadBack
pub mod Whole
use chowder.Prelude.Text.{codes}
use chowder.Prelude.{ℕ, Bool, true, false, List, [], ◌∷◌, Option, none, some}

pub record EstrMapping : Type 0 where
  pub name : List ℕ
  pub value : ℕ

-- `enum cv_type` and the union of the defaults.
pub data CvData : Type 0 where
  cv_num : ℕ → CvData
  cv_bool : Bool → CvData
  cv_str : Option (List ℕ) → CvData
  cv_estr : List EstrMapping → CvData

pub record ConfigValue : Type 0 where
  pub prop_name : List ℕ
  pub default : CvData

-- A member of `struct server_properties` that was not written, or what was last written to it.
pub data Field : Type 0 where
  unset : Field
  num : ℕ → Field
  bool : Bool → Field
  str : List ℕ → Field

abbrev pub estr : List ℕ → ℕ → EstrMapping
estr name value = record { name = name; value = value }

abbrev pub gamemode_mapping : List EstrMapping
gamemode_mapping = estr (codes "survival") 0 ∷ []

abbrev pub difficulty_mapping : List EstrMapping
difficulty_mapping =
    estr (codes "easy") 1
    ∷ estr (codes "peaceful") 0
    ∷ estr (codes "normal") 2
    ∷ estr (codes "hard") 3
    ∷ []

abbrev pub entry : List ℕ → CvData → ConfigValue
entry prop_name default = record { prop_name = prop_name; default = default }

unfoldable pub config_mappings : List ConfigValue
config_mappings =
    entry (codes "gamemode") (cv_estr gamemode_mapping)
    ∷ entry (codes "enable-command-block") (cv_bool false)
    ∷ entry (codes "level-name") (cv_str (some (codes "world")))
    ∷ entry (codes "motd") (cv_str (some (codes "A Minecraft Server")))
    ∷ entry (codes "pvp") (cv_bool true)
    ∷ entry (codes "difficulty") (cv_estr difficulty_mapping)
    ∷ entry (codes "network-compression-threshold") (cv_num 256)
    ∷ entry (codes "require-resource-pack") (cv_bool false)
    ∷ entry (codes "max-tick-time") (cv_num 60000)
    ∷ entry (codes "max-players") (cv_num 20)
    ∷ entry (codes "online-mode") (cv_bool true)
    ∷ entry (codes "enable-status") (cv_bool true)
    ∷ entry (codes "allow-flight") (cv_bool false)
    ∷ entry (codes "view-distance") (cv_num 10)
    ∷ entry (codes "server-ip") (cv_str none)
    ∷ entry (codes "resource-pack-prompt") (cv_str none)
    ∷ entry (codes "allow-nether") (cv_bool true)
    ∷ entry (codes "server-port") (cv_num 25565)
    ∷ entry (codes "sync-chunk-writes") (cv_bool true)
    ∷ entry (codes "op-permission-level") (cv_num 4)
    ∷ entry (codes "resource-pack") (cv_str none)
    ∷ entry (codes "entity-broadcast-range-percentage") (cv_num 100)
    ∷ entry (codes "player-idle-timeout") (cv_num 0)
    ∷ entry (codes "force-gamemode") (cv_bool false)
    ∷ entry (codes "rate-limit") (cv_num 0)
    ∷ entry (codes "hardcore") (cv_bool false)
    ∷ entry (codes "white-list") (cv_bool false)
    ∷ entry (codes "broadcast-console-to-ops") (cv_bool true)
    ∷ entry (codes "spawn-npcs") (cv_bool true)
    ∷ entry (codes "spawn-animals") (cv_bool true)
    ∷ entry (codes "function-permission-level") (cv_num 2)
    ∷ entry (codes "spawn-monsters") (cv_bool true)
    ∷ entry (codes "enforce-whitelist") (cv_bool true)
    ∷ entry (codes "resource-pack-sha1") (cv_str none)
    ∷ entry (codes "spawn-protection") (cv_num 16)
    ∷ entry (codes "max-world-size") (cv_num 29999984)
    ∷ []
