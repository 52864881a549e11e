-- ===== src/Main.antt =====
-- The command line of cdn/src/main.cpp. What a file holds, inet_pton and the initial configuration are arguments;
-- what is printed, the control socket and the tunnel itself are the actions that main ends in.
pub mod Runs
use Prim.Native.String.{String}
use pacetun.Base.{
  ℕ, List, [], ◌∷◌, Bool, true, false, not, ◌||◌, Option, none, some, if◌then◌else◌, is_empty,
  codes,
}
use pacetun.Flow.{list_eq}
use pacetun.Config.{Config}
use pacetun.Config.Value.{ConfigError, Result, ok, err}
use pacetun.Config.Load.{load_config}
use pacetun.Tun.{Family, TunError, Checked, fine, failed, validate_tun_inputs}

pub data Fatal : Type 0 where
  unknown_argument : List ℕ → Fatal
  config_required cannot_open : Fatal
  bad_config : ConfigError → Fatal
  bad_tun : TunError → Fatal

pub data Action : Type 0 where
  show_platform show_version show_help configuration_ok : Action
  explain : List ℕ → Action
  control_command : List ℕ → List ℕ → Action
  print_config run_tunnel : Config → Action
  fatal : Fatal → Action

pub record Options : Type 0 where
  pub path : List ℕ
  pub control : List ℕ
  pub command : List ℕ
  pub check : Bool
  pub print : Bool

abbrev pub no_options : Options
no_options = record { path = []; control = []; command = []; check = false; print = false }

-- The loop over the arguments ends in the options, or in an action at once.
pub data Arguments : Type 0 where
  options : Options → Arguments
  at_once : Action → Arguments

abbrev pub eq : List ℕ → String → Bool
eq s t = list_eq s (codes t)

-- An argument that takes none behind it.
abbrev pub single : (Options → Arguments) → List ℕ → Options → Arguments
single next a o =
    if eq a "--check-config"
    then next (record o { check = true })
    else if eq a "--print-effective-config"
    then next (record o { print = true })
    else if eq a "--version"
    then at_once show_version
    else if eq a "--help" || eq a "-h"
    then at_once show_help
    else at_once (fatal (unknown_argument a))

unfoldable pub arguments : Options → List (List ℕ) → Arguments
unfolding list_eq
arguments o [] = options o
arguments o (a ∷ []) = single (λ o'. options o') a o
arguments o (a ∷ b ∷ []) =
    let behind = single (λ o'. arguments o' (b ∷ [])) a o in
    if eq a "--config" then options (record o { path = b }) else behind
arguments o (a ∷ b ∷ c ∷ rest) =
    let with_path = arguments (record o { path = b }) (c ∷ rest) in
    let with_control = arguments (record o { control = b; command = c }) rest in
    let behind = single (λ o'. arguments o' (b ∷ c ∷ rest)) a o in
    if eq a "--config" then with_path else if eq a "--control" then with_control else behind

module _ (inet_pton : Family → List ℕ → Bool) (read : List ℕ → Option (List ℕ))
    (start : Config) where
  abbrev pub with_tun : Options → Config → Checked Family → Action
  with_tun o c (failed e) = fatal (bad_tun e)
  with_tun o c (fine family) =
      if o.check then configuration_ok else if o.print then print_config c else run_tunnel c

  abbrev pub with_config : Options → Result Config → Action
  with_config o (err e) = fatal (bad_config e)
  with_config o (ok c) = with_tun o c (validate_tun_inputs inet_pton c.dev c.cidr c.peer_cidr c.mtu)

  abbrev pub with_text : Options → Option (List ℕ) → Action
  with_text o none = fatal cannot_open
  with_text o (some text) = with_config o (load_config start text)

  abbrev pub with_options : Arguments → Action
  with_options (at_once a) = a
  with_options (options o) =
      if not (is_empty o.control)
      then control_command o.control o.command
      else if is_empty o.path
      then fatal config_required
      else with_text o (read o.path)

  -- The arguments behind the name of the program.
  unfoldable pub main : List (List ℕ) → Action
  unfolding arguments list_eq load_config validate_tun_inputs
  main [] = fatal config_required
  main (a ∷ []) =
      if eq a "--platform"
      then show_platform
      else if eq a "diagnose"
      then control_command (codes "/run/pacetun-cdn/control.sock") (codes "diagnose")
      else with_options (arguments no_options (a ∷ []))
  main (a ∷ b ∷ []) =
      if eq a "--explain" then explain b else with_options (arguments no_options (a ∷ b ∷ []))
  main (a ∷ b ∷ c ∷ rest) = with_options (arguments no_options (a ∷ b ∷ c ∷ rest))
