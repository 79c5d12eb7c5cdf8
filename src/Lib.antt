-- ===== src/Lib.antt =====
-- Apohara AgentGuard: a guard that runs as a hook of a coding agent and answers, for each event,
-- whether a tool may run.
--
-- The program reads an event as JSON, routes it by event and tool (src/hook/dispatch.rs), and asks
-- in turn the command gate, the path guard, the firewall, the tool rules of the configuration and
-- the policy engine; the strictest verdict wins and becomes an answer and an exit code
-- (src/contract.rs). A user configuration is overlaid by a project file, which is meant to tighten
-- it only (src/config.rs). Decisions go to an audit log whose lines are chained by hashes.
--
-- Parts and files:
--   Prelude            text as a list of code points with byte lengths, lists, results;
--   Verdict            src/verdict.rs: `Tier`, `Verdict`, `severity_to_tier`;
--   Config             src/config.rs: `Config`, `is_allowed`, `effective_thresholds`;
--   Config/Validate    `Config::validate`, its `bail!`s as the constructors of `ConfigError`;
--   Config/Tightening  `merge_tightening`, a function for each block of its body; in Layered the
--                      loading of a user file and of a project file over it;
--   Contract           src/contract.rs: `HookInput`, `cap_reason`, `emit`;
--   Policy/Matcher     the substring and star matchers of src/policy/matcher.rs,
--                      src/hook/dispatch.rs and src/gate/packs/community.rs;
--   Policy/Schema      src/policy/schema.rs;
--   Policy/Engine      src/policy/engine.rs: rules, default action, budgets; the counters behind the
--                      mutex are passed from call to call;
--   Gate/Compound      src/gate/compound.rs: `split_compound`, its loop as a turn per round;
--   Gate/Taxonomy      src/gate/taxonomy.rs: the built-in rules, verbs, pipes and fork bombs;
--   Gate/Packs         src/gate/packs: the domain packs, and the loading of community packs;
--   Gate/Decode        src/gate/decode.rs: base64 payloads;
--   Gate/Resolve       src/gate/resolve.rs: variables written into the later legs;
--   Gate/Scan, Gate    src/gate/mod.rs: `scan_leg`, `scan_substitution_body`, `evaluate`;
--   Firewall           src/firewall/mod.rs: `score_once`, `two_pass_scan`, `scan_surface`;
--   Firewall/Ssrf      `ssrf_check_ip` of src/firewall/refetch.rs, masks written as divisions;
--   Hook/PathGuard     src/hook/pathguard.rs: `clean_path`, `check_path`;
--   Hook/Dispatch      src/hook/dispatch.rs and src/hook/canary_hook.rs: `run_with_source`;
--   Audit/Chain        src/audit/chain.rs and `record` of src/audit/mod.rs: the log as its text,
--                      read by lines, the state file beside it, `verify_chain`;
--   Proxy/Framing      src/proxy/framing.rs: `read_line`, `write_line`;
--   Proxy/Span         the scan for the top-level id and the splice of src/proxy/spoof.rs;
--   Proxy/Spoof        `IdRewriter` of src/proxy/spoof.rs;
--   Proxy/Gate         src/proxy/gate.rs: `evaluate_tool_call`;
--   Proxy/Outbound     src/proxy/relay/outbound.rs: `handle_client_line`.
-- A module of proofs stands below the module it is about; runs at concrete inputs stand in Tests.
--
-- Conventions: machine integers are natural numbers, with the wrap or the saturation of the source
-- written out; a slice at a byte offset is a split of the text; a `bail!` or an early return is a
-- value; a loop is structural recursion on the list it walks, where it walks one. A loop that
-- jumps (the splitter, the expansion of variables, the scans for an id) counts rounds, and is
-- given one more than the text has characters; the scans of the gate count levels, and are given
-- one more than the cap on the depth. A map is an association list, and the clock and the random
-- source are passed in.
--
-- Parameters: what is not under the modelled files enters as an argument. JSON is the record
-- `Json`; `ConfigFiles` holds the file system and the TOML reader of the configuration; `Services`
-- holds what the dispatch calls (the command gate, the token store, the loader of policies, the
-- home directory, the lowercase of Unicode); `Detectors` holds the answers of the regex engines,
-- the two-stage checks, the analysis of URLs and the normalization; `Codec` holds the printing and
-- reading of audit lines and the SHA-256 digest, and `CodecLaws` what the chain relies on of it:
-- what is printed reads back from one line that is not blank, and a digest has 32 bytes.
-- `small_codec` of Audit/Chain/Tests is one that has these laws. `Outside` holds what the gate
-- asks for: the regex engine, the base64 engine, the check of UTF-8, and the normalization of
-- src/gate/normalize.rs. The relay takes the JSON reader and printers, and the verdict of the
-- policy.
--
-- Not modelled: the normalization of commands, the detectors of the firewall, the redaction of
-- secrets, the inbound direction and the pinning of the proxy, the sandbox, the display
-- neutralizer, the audit record that the dispatch makes of a decision, and the reading of files as bytes.
-- They are listed with reasons in the manifest.
pub mod Prelude
pub mod Verdict
pub mod Config
pub mod Contract
pub mod Policy
pub mod Audit
pub mod Hook
pub mod Firewall
pub mod Gate
pub mod Proxy
