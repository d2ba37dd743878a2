-- ===== src/Examples/ModeChanges.antt =====
-- The theorems on mode changes at the lobby.
use oragono.Prelude.{
  ◌≡◌, refl, false, none, some, List, [], ◌∷◌, arith, if◌then◌else◌, nat_beq_iff, ◌==◌, nat_eq,
  string_eq,
}
use oragono.Prelude.GoMap.{lookup}
use oragono.Modes.Letters.{add, remove, ModeChange, voice, key_mode, ban_mask, channel_operator}
use oragono.Channel.Access.{is_founder}
use oragono.Channel.State.{Net}
use oragono.Channel.ModeChanges.{Texts, apply_channel_mode_changes}
use oragono.Channel.ModeChanges.Guards.{outsider_changes_nothing}
use oragono.Channel.ModeChanges.Frame.{IsKept, mode_changes-IsKept}
use oragono.Examples.Setting.{plain_text, config, alice, bob, lobby}

-- Alice is the client 1 and on the channel, Bob is the client 2.
abbrev pair : Net
pair = record {
  channel = lobby;
  clients = λ who.
      if who == 1 then alice else if who == 2 then bob else record bob { nick_casefolded = "" };
}

abbrev texts : Texts
texts = record {
  canonical = λ mask. some mask;
  client_named = λ name. if name == "alice" then some 1 else if name == "bob" then some 2 else none;
  casefold_name = λ name. name;
  atoi = λ text. none;
}

abbrev asked : List ModeChange
asked =
    record { mode = voice; op = remove; arg = "bob" }
    ∷ record { mode = ban_mask; op = add; arg = "*!*@*" }
    ∷ record { mode = key_mode; op = add; arg = "open" }
    ∷ record { mode = channel_operator; op = remove; arg = "alice" }
    ∷ []

outsider_changes_nothing_example :
    apply_channel_mode_changes plain_text texts config pair 2 false 9 asked ≡ (pair, [])
unfolding lookup is_founder
outsider_changes_nothing_example =
    outsider_changes_nothing plain_text texts config pair 2 9 asked refl refl
      (λ nick t found.
        ground (arith, found, string_eq.equals_iff nick "alice", string_eq.equals_iff nick "bob"))
      (λ t same. ground (
        arith,
        same,
        nat_beq_iff t 1,
        nat_beq_iff t 2,
        string_eq.equals_iff "alice" "bob",
        string_eq.equals_iff "" "bob",
      ))

mode_changes-IsKept_example :
    IsKept lobby (apply_channel_mode_changes plain_text texts config pair 1 false 9 asked).0.channel
mode_changes-IsKept_example = mode_changes-IsKept plain_text texts config pair 1 false 9 asked
