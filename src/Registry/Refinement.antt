-- ===== src/Registry/Refinement.antt =====
-- The table of signals refines the table that its clients think of.
use signal_hook.Base.{◌+◌, ◌<◌, ◌^◌, List, [], ◌∷◌, ℤ, length, arith}
use signal_hook.Registry.{Sigaction, Libc, SigactionLaws, World}
use signal_hook.Registry.Model.{Call, Model, call, Agrees, Follows}
use signal_hook.Registry.Answers.{call-One}

module _ {F : Type 0} (c : Libc) (start : ℤ → Sigaction) where
  -- The registry refines a table of lists. Let the kernel's `sigaction` be as its manual page says,
  -- let the state agree with a table of lists, and let there be identifiers enough. Then so it is
  -- after each of any sequence of registrations and removals: a registration returns the next
  -- identifier and its action is the last of the list of its signal, or it returns an error of
  -- `sigaction` and the table is as it was; `unregister` says whether the identifier is in the list,
  -- and takes it out; `unregister_signal` says whether the list has an action, and empties it. A
  -- delivery of a signal that has not been registered does what the disposition at the start says, a
  -- default action included. After the first registration of the signal it runs the function that
  -- was installed at the start, or nothing where that was the default action, and then the list, even
  -- if that is empty again.
  pub registry_is_table :
      (ks : List (Call F)) (w : World c F) (m : Model F)
      → SigactionLaws c
      → Agrees c start w m
      → m.next + length ks < 2 ^ 128
      → Follows c start ks w m
  registry_is_table [] w m laws h room = h
  registry_is_table (k ∷ ks) w m laws h room =
      let (m', allowed, h', more) = call-One c start w m h k laws (omega (arith, room)) in
      (h, m', allowed, registry_is_table ks (call c k w) m' laws h' (omega (arith, room, more)))
