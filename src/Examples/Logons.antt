-- ===== src/Examples/Logons.antt =====
-- The theorem on the bytes of a logon, at a server that listens to a socket.
use nest_quickfix.Prelude.{◌≡◌, refl, some, [], ◌∷◌}
use nest_quickfix.Text.{text, text_Eq}
use nest_quickfix.Text.Integer.{nat}
use nest_quickfix.Fields.{
  begin_string, msg_type, sender_comp_id, target_comp_id, msg_seq_num, sending_time, heart_bt_int,
  encrypt_method,
}
use nest_quickfix.Message.{Message, string, numeric, value_text, get_field, has_field}
use nest_quickfix.Message.Laws.{print}
use nest_quickfix.Message.Sendable.{IsSendable, IsPlain-number}
use nest_quickfix.Parser.RoundTrip.{received, stream}
use nest_quickfix.World.{World}
use nest_quickfix.Manager.{get_session}
use nest_quickfix.Acceptor.{accept, receive_data}
use nest_quickfix.Acceptor.Admitted.{IsAdmitted}
use nest_quickfix.Acceptor.Wired.{IsLogonTo, receive_data-IsAdmitted}
use nest_quickfix.Acceptor.Stream.{handled_each, receive_data-stream}
use nest_quickfix.Result.{ok}
use nest_quickfix.Examples.{plain, beat, beat-IsSendable}
use nest_quickfix.Examples.Sessions.{quiet, idle, idle-IsPassive}
use nest_quickfix.Examples.Acceptance.{server}

abbrev hello : Message
hello = record {
  fields =
      (begin_string, string (text "FIX.4.4"))
      ∷ (msg_type, string (text "A"))
      ∷ (sender_comp_id, string (text "CLIENT"))
      ∷ (target_comp_id, string (text "SERVER"))
      ∷ (msg_seq_num, numeric (nat 1))
      ∷ (sending_time, string (text "20240102-03:04:05.006"))
      ∷ (heart_bt_int, numeric (nat 30))
      ∷ (encrypt_method, numeric (nat 0))
      ∷ [];
}

hello-IsSendable : IsSendable hello
unfolding value_text nest_quickfix.OrderedMap.has has_field
hello-IsSendable = record {
  unique = (refl, (refl, (refl, (refl, (refl, (refl, (refl, (refl, tt))))))));
  required = (refl, (refl, (refl, (refl, (refl, (refl, tt))))));
  clean = (
    ((8, refl), plain _ _ refl refl),
    (
      ((35, refl), plain _ _ refl refl),
      (
        ((49, refl), plain _ _ refl refl),
        (
          ((56, refl), plain _ _ refl refl),
          (
            ((34, refl), IsPlain-number 1),
            (
              ((52, refl), plain _ _ refl refl),
              (((108, refl), IsPlain-number 30), (((98, refl), IsPlain-number 0), tt)),
            ),
          ),
        ),
      ),
    ),
  );
}

hello-IsLogonTo : IsLogonTo server.target_comp_id hello
unfolding value_text get_field has_field nest_quickfix.OrderedMap.get nest_quickfix.OrderedMap.has
hello-IsLogonTo = record {
  sendable = hello-IsSendable;
  type = refl;
  interval = refl;
  encryption = refl;
  addressed = refl;
}

-- A peer has connected.
abbrev listening : World
listening = accept 0 (text "10.0.0.1") quiet

receive_data-IsAdmitted_example :
    IsAdmitted server [] 0
      (received hello)
      listening
      (receive_data idle server [] 0 (print hello) listening)
    × (get_session
          (text "CLIENT")
          (text "SERVER")
          (receive_data idle server [] 0 (print hello) listening).1
        ≡ some 0)
unfolding accept value_text get_field get_session nest_quickfix.OrderedMap.get
receive_data-IsAdmitted_example =
    receive_data-IsAdmitted idle server [] 0 hello listening listening idle-IsPassive
      hello-IsLogonTo refl refl refl refl refl refl

-- A logon, and a heartbeat of other parties.
receive_data-stream_example :
    receive_data idle server [] 0 (stream (hello ∷ beat ∷ [])) listening
    ≡ (ok tt, handled_each idle server [] 0 (hello ∷ beat ∷ []) listening)
unfolding accept
receive_data-stream_example =
    receive_data-stream idle server [] 0 (hello ∷ beat ∷ []) listening
      (hello-IsSendable, (beat-IsSendable, tt)) refl
