-- ===== src/Shell/Main/Start.antt =====
-- The start of the shell, and the sessions behind it.
use yaup.Base.{
  ℕ, zero, suc, ◌+◌, ◌<◌, ◌≤◌, ◌≡◌, refl, Option, none, some, List, [], ◌∷◌, ◌++◌, map, replicate,
  length, get_elem?, Run, ok, panic, fault, out_of_fuel, gets, modify, arith,
}
use yaup.Shell.Text.{strncpy, atoi}
use yaup.Shell.State.{System, Shell}
use yaup.Shell.Frame.{
  IsSafe, bind-IsSafe, gets-IsSafe, deref-IsSafe, modify-IsSafe, value_text-IsSafe,
}
use yaup.Shell.Main.{env_names, init_values, init_names, enter, started, main_start}
use yaup.Shell.Main.Session.{Session, Session-Keeps}

init_values-fault :
    (n : ℕ) (envp : List (List ℕ)) (held : List (Option (List ℕ)))
    → length envp + 1 < n
    → init_values n envp held ≡ fault
unfolding init_values
init_values-fault zero envp held short = absurd (omega arith)
init_values-fault (suc n) [] [] short = refl
init_values-fault (suc n) [] (v ∷ held) short = ground arith
init_values-fault (suc n) (e ∷ envp) [] short = refl
init_values-fault (suc n) (e ∷ envp) (v ∷ held) short =
    ground (arith, init_values-fault n envp held (omega arith))

get_elem?-map :
    {A B : Type 0} (f : A → B) (xs : List A) (ys : List B) (i : ℕ) (x : A)
    → get_elem? xs i ≡ some x
    → get_elem? (map f xs ++ ys) i ≡ some (f x)
get_elem?-map f [] ys i x e = ground arith
get_elem?-map f (z ∷ xs) ys zero x e = ground arith
get_elem?-map f (z ∷ xs) ys (suc i) x e = get_elem?-map f xs ys i x e

module _ {y : System} where
  enter-IsSafe : IsSafe {y = y} enter
  unfolding enter
  enter-IsSafe = bind-IsSafe (gets (λ s. get_elem? s.envp_value 3)) _ (gets-IsSafe _) (λ slot.
      bind-IsSafe _ _ (deref-IsSafe slot) (λ home.
        bind-IsSafe (modify (λ s. record s { world = (y.chdir s.world home).1 })) _
          (modify-IsSafe _ (λ s. refl))
          (λ u. bind-IsSafe _ _ (value_text-IsSafe 1) (λ uid.
            bind-IsSafe (modify (λ s. record s { world = y.setuid s.world (atoi uid) })) _
              (modify-IsSafe _ (λ s. refl))
              (λ u'. bind-IsSafe _ _ (value_text-IsSafe 2) (λ gid.
                modify-IsSafe (λ s. record s { world = y.setgid s.world (atoi gid) })
                  (λ s. refl)))))))

  started-names :
      (stdin : List ℕ) (w : y.World) (values : Run (List (Option (List ℕ)))) (s : Shell y)
      → started stdin w values ≡ ok (tt, s)
      → (i : ℕ) (b : List ℕ) → i ≤ 5
      → get_elem? init_names i ≡ some (some b)
      → get_elem? s.envp_name i ≡ some (some b)
  started-names stdin w (ok values) s e i b small named = enter-IsSafe _ s tt e i b small named
  started-names stdin w (panic m) s e i b small named = ground arith
  started-names stdin w fault s e i b small named = ground arith
  started-names stdin w out_of_fuel s e i b small named = ground arith

  -- An environment of less than seven strings is read past its null pointer.
  main_start-fault :
      (envp : List (List ℕ)) (held : List (Option (List ℕ))) (stdin : List ℕ) (w : y.World)
      → length envp < 7
      → main_start {y = y} envp held stdin w ≡ fault
  unfolding main_start
  main_start-fault envp held stdin w short =
      ground (arith, init_values-fault 8 envp held (omega arith))

  -- However the shell starts and however many rounds it runs, whatever the lines say, the first six
  -- variables are called USER, UID, GID, HOME, PATH and PWD.
  pub main_start-Session :
      (state : ℕ) (envp : List (List ℕ)) (held : List (Option (List ℕ))) (stdin : List ℕ)
      (w : y.World) (s t : Shell y)
      → main_start envp held stdin w ≡ ok (tt, s)
      → Session state s t
      → (i : ℕ) (name : List ℕ) → i ≤ 5
      → get_elem? env_names i ≡ some name
      → get_elem? t.envp_name i ≡ some (some (strncpy 32 name))
  unfolding main_start init_names
  main_start-Session state envp held stdin w s t e session i name small named =
      Session-Keeps state s t session i (strncpy 32 name) small (
        started-names stdin w (init_values 8 envp held) s e i (strncpy 32 name) small
          (get_elem?-map (λ n. some (strncpy 32 n)) env_names (replicate 7 none) i name named))
