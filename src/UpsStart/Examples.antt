-- ===== src/UpsStart/Examples.antt =====
-- Starts by the default configuration.
use argon_utils.Prelude.{◌≡◌, refl, eq_string, none, some, [], ◌∷◌, String}
use argon_utils.Config.{default_config, default_ups}
use argon_utils.Service.{contention_among, contains_unit}
use argon_utils.UpsStart.{spawn, open_link, Ports, held}
use argon_utils.Prelude.{ok, true}

vendor_holds_the_port : spawn default_config ("argonupsrtcd.service" ∷ []) ≡ none
unfolding spawn contention_among contains_unit eq_string
vendor_holds_the_port = refl

no_source : spawn (record default_config { ups = record default_ups { source = "none" } }) [] ≡ none
unfolding spawn contention_among eq_string
no_source = refl

-- Another process has the port open.
abbrev taken : Ports String
taken = record {
  discovered = some "/dev/ttyACM0";
  exists = λ p. true;
  owned = λ p. true;
  open_port = λ p. ok p;
}

left_alone : open_link taken none ≡ held
unfolding open_link
left_alone = refl
