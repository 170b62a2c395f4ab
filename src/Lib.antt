-- ===== src/Lib.antt =====
-- Verification of tabra, an autocompletion popup for shells.
--
-- The program. `tabra session` runs a shell in a PTY. Keys of the terminal go through the key
-- parser to the popup, which takes them or hands them on to the shell; the buffer tracker follows
-- what is typed, and after a pause the line goes to a daemon. The daemon tokenizes the line, walks
-- the completion spec of the command and answers with items; the popup draws them below the
-- prompt. The shell's output passes a parser that takes out the sequences by which the shell
-- reports its line and its prompts. Without a session, a hook for zsh, bash or fish runs in the
-- shell itself: it asks the daemon through the client, `tabra complete`, and draws the popup.
--
-- The files, and the code that they model:
--   * Prelude: lists, Booleans, texts, and the errors of anyhow with their contexts
--     (Prelude/Results). A text is the list of its characters' code points, and `len_utf8`,
--     `len_bytes`, `byte_of_char` and `split_at` are the byte offsets of Rust's strings, where
--     `none` is a panic of a slice.
--   * Spec: src/spec/types.rs. A subcommand with `subcommands: None` is a `leaf`, with `Some` list
--     a `node`. `serde_json::Value` is a type parameter.
--   * Lexer: `tokenize` of src/engine/parser.rs; the loop's variables are the record `Lexer` and
--     one character is `step`. Lexer/Spelling has the ways to write a word.
--   * Parser: `parse` of src/engine/parser.rs; the loop's variables are the record `Walk` and one
--     token is `step`. The loop is a recursion on the tokens left.
--   * Suggest: the suggestions of src/engine/resolver.rs that come from the spec alone: subcommands,
--     options and static lists.
--   * Templates: `expand_template` of src/engine/resolver.rs, with the paths of `std::path` on
--     Unix. What `read_dir` gives is a parameter.
--   * Generators: `execute_generator`, `run_command` and the cache of src/engine/resolver.rs. The
--     cache is a state that is passed on; the clock, the hash, child processes and the kinds of
--     JSON values are the parameter `Runtime`.
--   * Resolver: `resolve`, `walk_spec` and `collect_arg_suggestions` of src/engine/resolver.rs.
--     `std::ptr::eq` of the parent and the current command says that the walk ends at the parent.
--   * Matcher: src/engine/matcher.rs. The scores of nucleo are a parameter; Matcher/Sorting has the
--     laws of the stable sort.
--   * Loader: the index of src/spec/loader.rs, whose map is an association list. A path is the name
--     of its file; what reading and deserialising the file gives is a parameter. Loader/Files has
--     the commands that install and check the files.
--   * Server: `handle_complete` and the answers of src/ipc/server.rs, and `handle_connection` in
--     Server/Connection. `Host` gathers the parameters of the parts that it calls.
--   * Client: the lines that src/ipc/client.rs prints for the shell hooks; Client/Reading is the
--     shell's reading of them. Client/Requests has `send_request` and the requests, with the result
--     of each call of the socket as an argument, Client/Timed those of src/ipc/async_client.rs, where
--     a call takes some milliseconds or never ends.
--   * Daemon: src/daemon/mod.rs and the loop of src/ipc/server.rs. A task that the watcher spawns is
--     a value, and the order in which tasks and connections run is a list; Daemon/Run goes from the
--     start to the end, with what the system gives as the record `System`. Daemon/Watching is the
--     transition system of a directory, in which files are also written that hold no spec, the tasks
--     on their way and the index. Daemon/Connection is
--     the exchange of a client and a hook with the daemon.
--   * Hooks: the scripts of src/shell/hook.rs (Hooks/Zsh, with Hooks/Screen), src/shell/bash_hook.rs
--     (Hooks/Bash) and src/shell/fish_hook.rs (Hooks/Fish). The scripts' variables are the record
--     `Hook`, and what a function prints or sends is a list of `Effect`. Texts and indices are in
--     characters, as in a UTF-8 locale; a text that is no number counts as 0. A command substitution
--     of fish is the list of the lines printed. What the client prints and what fish's
--     `commandline` answers are arguments.
--   * Setup: src/session/mod.rs and the arguments that src/session/pty.rs gives the shell.
--   * Cli: the commands of src/main.rs, and `print_hook` of src/shell/mod.rs.
--   * Utf8: UTF-8 of the Rust library: `encode_utf8`, and `from_utf8` with the number of bytes as
--     fuel, one byte at least is used for each character.
--   * Keys: src/session/keys.rs. The loop of `parse_bytes` has the number of bytes as fuel, each
--     round takes one at least (Keys/Rounds).
--   * Tracker: src/session/buffer_tracker.rs. Tracker/Zipper is its specification, the text before
--     and behind the cursor.
--   * Osc: src/session/osc.rs. The decoder of base64 is a parameter. Osc/Reports has the sequences
--     that the scripts of src/session/integration.rs print.
--   * Protocol: the messages of src/ipc/protocol.rs, and the path of the socket.
--   * Overlay: src/render/overlay.rs and src/render/theme.rs. What crossterm writes for colours and
--     attributes is the parameter `Ansi`; `IsQuiet` says that it holds no line feed.
--   * Popup: src/session/popup.rs, every method a function on `PopupState`. The daemon's answer is
--     an argument of `on_command_line`.
--   * Session: src/session/event_loop.rs. The popup and the tracker that the tasks share, the
--     parsers, the channels to the debounce task, the terminal and the PTY are one state; the work
--     of a task on one message is a function on it, and `left_by_stdin` and `left_by_debounce` are
--     what it leaves where it panics. Session/Reach is the transition system in which the tasks take
--     their messages in any order. Session/Typing has the loop of the task that reads standard
--     input, Session/Debounce the rounds of the debounce task, where the times at which the messages
--     and the answers come are arguments; its fuel is the number of messages, each round takes one
--     at least. Session/Completing goes from a line of that task through the daemon to the accepted
--     text.
--   * Tests: concrete inputs.
--
-- Panics are `none`: a slice off a character's boundary, an index out of range, `clamp` with
-- crossed bounds. A panic ends the task, and what it leaves to the others is written out for the
-- tasks of a session that read keys and ask the daemon. A `usize` of the source is a natural number; the counts that are added to are
-- lengths of lists in memory, far below 2 ^ 64, and where a number is read from text (`parse_usize`
-- of Osc) the bound is checked.
--
-- Not modelled: pseudo terminals, terminal modes, descriptors, processes and the texts of the scripts
-- of a session beside their sequences (src/session/pty.rs, src/session/mod.rs,
-- src/session/integration.rs), the runtime and its threads, the reading of arguments by clap
-- (src/main.rs), the reading and writing of specs and messages by serde, lines of several rows in
-- fish, and the module files (src/engine/mod.rs and the like). The daemon answers one connection at
-- a time, and the tasks of a session are taken one message at a time; that another task runs between
-- two locks of one handler is not modelled.
pub mod Prelude
pub mod Spec
pub mod Lexer
pub mod Parser
pub mod Suggest
pub mod Generators
pub mod Templates
pub mod Resolver
pub mod Matcher
pub mod Server
pub mod Loader
pub mod Daemon
pub mod Client
pub mod Utf8
pub mod Keys
pub mod Tracker
pub mod Osc
pub mod Protocol
pub mod Overlay
pub mod Popup
pub mod Session
pub mod Setup
pub mod Hooks
pub mod Cli
pub mod Tests
