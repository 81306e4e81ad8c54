-- ===== src/Lib.antt =====
-- caddy-docker-proxy: a Caddy plugin that turns the labels of Docker containers and services into a
-- Caddyfile. Package generator asks the Docker clients for containers, services and configs, turns
-- the labels of each into a container of Caddyfile blocks, merges these into one, and writes it;
-- package caddyfile has the blocks, their text form, their comparison, and the removal of blocks
-- that Caddy refuses; package namepublish finds the names of the sites in the result, and publishes
-- them once, with publishers for the Technitium DNS server and for mDNS. The loader (loader.go) is
-- what runs: events of Docker and a timer start an update, which makes the Caddyfile, adapts it to
-- a configuration, sends this to the controlled servers that do not have it yet, and has the names
-- published. The command (cmd.go) reads the options and starts a server, the loader, or both.
--
-- A text is the list of its code points. Logging is left out, except where a function returns its log.
-- The files, with the code that each models (paths from the repository's root):
--   Prelude               numbers, lists, texts, results and maps that the parts share
--   Config                config/options.go
--   Caddyfile/Block       caddyfile/caddyfile.go: Block and Container as two mutual data types; a
--                         Container is the list of its children, and the pointers to blocks are
--                         positions
--   Caddyfile/Compare     caddyfile/marshal.go: compareBlocks, mutual with the loop over the children
--   Caddyfile/Sort        caddyfile/marshal.go: Container.sort; sort.SliceStable as insertion sort
--   Caddyfile/Lexer       caddyfile/lexer.go: load and next, allTokens of caddyfile/marshal.go
--   Caddyfile/Marshal     caddyfile/marshal.go: Marshal and write
--   Caddyfile/Parser      caddyfile/marshal.go: Unmarshal and parseContainer, the stack of containers
--                         as paths (Tree) into the tree that is built
--   Caddyfile/RoundTrip   what Unmarshal reads of a written container, in steps: keys, tokens, blocks
--   Caddyfile/Merge       caddyfile/merge.go
--   Caddyfile/LabelPath   caddyfile/fromlabels.go: the regular expression of label paths, parsePath
--   Caddyfile/FromLabels  caddyfile/fromlabels.go: FromLabels, getOrCreateBlock, parseArgs
--   Caddyfile/Process     caddyfile/processor.go
--   Generator/Sites       generator/generator.go: mergeCaddyfile and its helpers
--   Generator/Labels      generator/labels.go, filterLabels and labelRegex of generator/generator.go
--   Generator/Docker      docker/client.go and what is read of the answers
--   DockerUtils           docker/utils.go; the generator takes the container's id as a parameter
--   Generator/Addresses   generator/containers.go and generator/services.go
--   Generator/Networks    generator/generator.go: getIngressNetworks, checkSwarmAvailability
--   Generator/Generate    generator/generator.go: GenerateCaddyfile with the state of the generator;
--                         `none` is the panic of parsePath, which nothing recovers from
--   NamePublish/Extract   namepublish/extract.go
--   NamePublish/Manager   namepublish/manager.go and the entries of namepublish/types.go
--   NamePublish/Technitium
--                         namepublish/technitium.go: the types and helpers; Publish has the requests
--                         and publishOnce, Retry the attempts of Publish
--   NamePublish/Avahi     namepublish/avahi.go: the state, Publish, and the answers of Records
--   NamePublish/Build     namepublish/build.go
--   Utils                 utils/stringBoolCMap.go and utils/stringInt64CMap.go as one generic map
--   Loader                loader.go: update and updateServer on the fields of DockerLoader; the requests
--                         to the servers and the names that are published are a list of effects
--   Loader/Synced         what the servers run, as the effects of the requests that they accept
--   Loader/Events         loader.go: listenEvents, and update up to its new lastCaddyfile, as
--                         goroutines that overlap, a step for each access to what they share
--   Cmd                   cmd.go: the flags; Settings has the reading of a setting, Options has
--                         createOptions, and Run has cmdFunc and getAdminListen
--   The modules named Tests run the code at concrete inputs.
--
-- Parameters: Caddy's Caddyfile adapter, text/template, files, the clock, the Docker clients,
-- SHA-256, time.ParseDuration, the functions of packages net and net/url, the mDNS server and
-- dns.Fqdn, the comparison of texts without regard to case, the HTTP clients with the JSON that
-- they carry, the configuration of Caddy, whether a wait runs to its end, and the order in which Go
-- goes through a map. A version is an int64 that starts again at the least one; the theorems on
-- update ask that it is not the greatest.
--
-- Fuel: the lexer takes a code point for each token, and its fuel is one more than there are code
-- points (Lexer/Progress); a parent path is shorter than its path, and the fuel of getOrCreateBlock
-- is one more than the length of the label (FromLabels/Fuel); strconv.Itoa has one more than the
-- number; each round of the inner loop of Process but the last takes a key from the block, and its
-- fuel is one more than the number of keys. The attempts of Publish recur on the list of delays.
--
-- Not modelled: invalid UTF-8, warnings and log levels, the connections that the loader's Start makes
-- and its HTTP requests that run at the same time (update sends them one after another here), and the
-- ticker of the publisher for mDNS, which runs beside its calls.
pub mod Prelude
pub mod Config
pub mod Caddyfile
pub mod Generator
pub mod NamePublish
pub mod Utils
pub mod DockerUtils
pub mod Loader
pub mod Cmd
