-- ===== src/Shell/SessionTests.antt =====
-- A session of the shell at a small system.
use yaup.Base.{
  ℕ, ◌≡◌, refl, some, none, get_elem?, arith, List, [], ◌∷◌, ◌++◌, map, replicate, set, ok,
}
use yaup.Shell.Text.{text, strncpy, decimal}
use yaup.Shell.State.{Shell}
use yaup.Shell.Sample.{system}
use yaup.Shell.Main.{
  round, init_names, run_line, run_tokens, run_index, put_status, call, has_memory, main_start,
}
use yaup.Shell.Main.Session.{Session, start, after_round}
use yaup.Shell.Main.Start.{main_start-Session}

abbrev object : List ℕ → List ℕ
object s = s ++ replicate 12 0

abbrev start_values : List (List ℕ)
start_values = map object (
    text "user" ∷ text "1" ∷ text "2" ∷ text "/" ∷ text "/bin" ∷ text "/home" ∷ [] ∷ text "sh" ∷ [])

abbrev at_start : Shell system
at_start = record {
  envp_name = init_names;
  envp_value = map some start_values ++ replicate 7 none;
  stdin = text "pwd\n";
  stdout = [];
  world = 6;
}

abbrev after_pwd : Shell system
after_pwd = record at_start {
  envp_value = set at_start.envp_value 6 (some (strncpy 12 (decimal 0)));
  stdin = [];
  stdout = text "[user]: " ++ text "/home\n";
}

round-pwd : round 0 at_start ≡ ok (tt, after_pwd)
unfolding round run_line run_tokens run_index call put_status init_names yaup.Shell.Line.read_line
    yaup.Shell.Line.read_chars text yaup.Shell.Line.store yaup.Shell.Line.grow
    yaup.Shell.Line.split_line has_memory yaup.Shell.Line.split_loop yaup.Shell.Text.string_of
    yaup.Shell.Line.has_slot yaup.Shell.Text.skip_delims yaup.Shell.Text.is_delim
    yaup.Shell.Line.put_token yaup.Shell.Line.grow_tokens yaup.Shell.Text.after_token
    yaup.Shell.Text.token_of yaup.Shell.Line.terminated yaup.Shell.Line.realloc
    yaup.Shell.Builtins.select_cmd yaup.Shell.Builtins.select_loop yaup.Shell.Builtins.yash_pwd
    yaup.Shell.Text.strcmp_eq strncpy decimal yaup.Shell.Text.digits
round-pwd = refl

pwd-Session : Session 0 at_start after_pwd
pwd-Session = after_round start round-pwd

main_start-at_start :
    main_start {y = system} start_values (replicate 15 none) (text "pwd\n") 5 ≡ ok (tt, at_start)
unfolding main_start yaup.Shell.Main.init_values yaup.Shell.Main.enter yaup.Shell.Text.atoi
    yaup.Shell.Text.string_of text yaup.Shell.Text.signed_value yaup.Shell.Text.digits_value
main_start-at_start = refl

main_start-Session_example :
    get_elem? after_pwd.envp_name 4 ≡ some (some (strncpy 32 (text "PATH")))
main_start-Session_example =
    main_start-Session 0 start_values (replicate 15 none) (text "pwd\n") 5 at_start after_pwd
      main_start-at_start pwd-Session 4 (text "PATH") (omega arith) refl
