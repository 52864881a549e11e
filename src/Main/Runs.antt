-- ===== src/Main/Runs.antt =====
-- When main of cdn/src/main.cpp starts the tunnel.
use pacetun.Base.{
  ℕ, ◌≡◌, refl, List, [], ◌∷◌, Bool, true, false, not, ◌||◌, Option, none, some, if◌then◌else◌,
  is_empty,
}
use pacetun.Config.{Config}
use pacetun.Config.Value.{Result, ok, err}
use pacetun.Config.Load.{load_config}
use pacetun.Config.Valid.{Safe}
use pacetun.Config.Loaded.{load_config-Safe}
use pacetun.Tun.{Family, Checked, fine, failed, validate_tun_inputs}
use pacetun.Tun.Safe.{Accepted, validate_tun_inputs-Accepted}
use pacetun.Main.{
  Action, show_platform, show_version, show_help, configuration_ok, explain, control_command,
  print_config, run_tunnel, fatal, Options, Arguments, options, at_once, eq, single, arguments,
  no_options, with_tun, with_config, with_text, with_options, main,
}

module _ (inet_pton : Family → List ℕ → Bool) where
  -- A configuration that every check accepts.
  abbrev pub Usable : Config → Type 0
  Usable c = Safe c × ((family : Family) × Accepted inet_pton c.dev c.cidr c.peer_cidr c.mtu family)

  -- What is asked of an action: the tunnel and the print are given a usable configuration.
  abbrev pub Sound : Action → Type 0
  Sound show_platform = Unit
  Sound show_version = Unit
  Sound show_help = Unit
  Sound configuration_ok = Unit
  Sound (explain code) = Unit
  Sound (control_command socket command) = Unit
  Sound (print_config c) = Usable c
  Sound (run_tunnel c) = Usable c
  Sound (fatal e) = Unit

  abbrev SoundArguments : Arguments → Type 0
  SoundArguments (options o) = Unit
  SoundArguments (at_once a) = Sound a

  Sound-if : (b : Bool) (x y : Action) → Sound x → Sound y → Sound (if b then x else y)
  Sound-if true x y h k = h
  Sound-if false x y h k = k

  SoundArguments-if :
      (b : Bool) (x y : Arguments)
      → SoundArguments x
      → SoundArguments y
      → SoundArguments (if b then x else y)
  SoundArguments-if true x y h k = h
  SoundArguments-if false x y h k = k

  single-SoundArguments :
      (next : Options → Arguments) (a : List ℕ) (o : Options)
      → ((o' : Options) → SoundArguments (next o'))
      → SoundArguments (single next a o)
  single-SoundArguments next a o h = SoundArguments-if (eq a "--check-config") _ _ (h _) (
      SoundArguments-if (eq a "--print-effective-config") _ _ (h _) (
        SoundArguments-if (eq a "--version") _ _ tt
          (SoundArguments-if (eq a "--help" || eq a "-h") _ _ tt tt)))

  arguments-SoundArguments :
      (args : List (List ℕ)) (o : Options) → SoundArguments (arguments o args)
  unfolding arguments
  arguments-SoundArguments [] o = tt
  arguments-SoundArguments (a ∷ []) o = single-SoundArguments (λ o'. options o') a o (λ o'. tt)
  arguments-SoundArguments (a ∷ b ∷ []) o = SoundArguments-if (eq a "--config") _ _ tt (
      single-SoundArguments (λ o'. arguments o' (b ∷ [])) a o
        (λ o'. arguments-SoundArguments (b ∷ []) o'))
  arguments-SoundArguments (a ∷ b ∷ c ∷ rest) o =
      SoundArguments-if (eq a "--config") _ _ (arguments-SoundArguments (c ∷ rest) _) (
        SoundArguments-if (eq a "--control") _ _ (arguments-SoundArguments rest _) (
          single-SoundArguments (λ o'. arguments o' (b ∷ c ∷ rest)) a o
            (λ o'. arguments-SoundArguments (b ∷ c ∷ rest) o')))

  module _ (read : List ℕ → Option (List ℕ)) (start : Config) where
    with_tun-Sound :
        (o : Options) (c : Config) (r : Checked Family)
        → validate_tun_inputs inet_pton c.dev c.cidr c.peer_cidr c.mtu ≡ r
        → Safe c
        → Sound (with_tun inet_pton read start o c r)
    with_tun-Sound o c (failed e) h s = tt
    with_tun-Sound o c (fine family) h s =
        let usable : Usable c = (
          s,
          (family, validate_tun_inputs-Accepted inet_pton c.dev c.cidr c.peer_cidr c.mtu family h),
        ) in
        Sound-if o.check _ _ tt (Sound-if o.print _ _ usable usable)

    with_config-Sound :
        (o : Options) (text : List ℕ) (r : Result Config)
        → load_config start text ≡ r
        → Sound (with_config inet_pton read start o r)
    with_config-Sound o text (err e) h = tt
    with_config-Sound o text (ok c) h =
        with_tun-Sound o c _ refl (load_config-Safe start c text h).0

    with_text-Sound :
        (o : Options) (t : Option (List ℕ)) → Sound (with_text inet_pton read start o t)
    with_text-Sound o none = tt
    with_text-Sound o (some text) = with_config-Sound o text (load_config start text) refl

    with_options-Sound :
        (r : Arguments) → SoundArguments r → Sound (with_options inet_pton read start r)
    with_options-Sound (at_once a) h = h
    with_options-Sound (options o) h =
        Sound-if (not (is_empty o.control)) _ _ tt
          (Sound-if (is_empty o.path) _ _ tt (with_text-Sound o (read o.path)))

    -- Whatever the arguments and the files, a configuration with which main starts the tunnel, or
    -- which it prints, has passed the checks of load_config, with the limits and the encryption
    -- of a safe configuration, and those of validate_tun_inputs.
    pub main-Sound : (args : List (List ℕ)) → Sound (main inet_pton read start args)
    unfolding main
    main-Sound [] = tt
    main-Sound (a ∷ []) = Sound-if (eq a "--platform") _ _ tt (
        Sound-if (eq a "diagnose") _ _ tt
          (with_options-Sound _ (arguments-SoundArguments (a ∷ []) no_options)))
    main-Sound (a ∷ b ∷ []) =
        Sound-if (eq a "--explain") _ _ tt
          (with_options-Sound _ (arguments-SoundArguments (a ∷ b ∷ []) no_options))
    main-Sound (a ∷ b ∷ c ∷ rest) =
        with_options-Sound _ (arguments-SoundArguments (a ∷ b ∷ c ∷ rest) no_options)
