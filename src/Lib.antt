-- ===== src/Lib.antt =====
-- CK3 LLM Chronicler: a verification library for the parts of the program that decide what happened
-- between two saves of a campaign, for the reading of saves and logs, and for the queue of the
-- biographies that follow.
--
-- The program watches the saves of a game. Each save is parsed into a snapshot; the diff of two
-- adjacent snapshots is a list of events; the events are stored, and a death of a tracked character
-- puts a biography into the queue that the pages of the application show. An older way of ingest reads
-- the log of the game while it grows. The event bus carries what happens to the open pages.
--
-- The parts, and the files that model them:
--   Snapshot           src/chronicler/save/snapshot.py: the dataclasses of one save
--   Events             src/chronicler/schema/events.py: the payloads and the types of the events
--   Diff               src/chronicler/save/diff.py; in Diff/: Types (DiffEvent and the exceptions),
--                      Make (`_make_*`), Character (`_diff_one_character`), Attributes (`_diff_traits`,
--                      `_diff_perks` and the like), Titles (`_diff_titles`), SetDiff
--                      (`make_set_differ` and its six streams), Wars, Dynasties and Streams (the other
--                      members of STREAM_DIFFERS) and Snapshots (`diff_snapshots`). A function `_f` of
--                      the code is `f` here.
--   Dates              src/chronicler/util/dates.py
--   Lifestyles         src/chronicler/save/lifestyle_perks.py
--   Splendor           src/chronicler/save/dynasty_splendor.py
--   Queue              src/chronicler/narrative/queue_state.py: `NarrativeQueueState`; in Queue/: Views
--                      (what its readers get) and Runs (sequences of calls)
--   Ingest             src/chronicler/ingest_common.py and `insert_event_idempotent` of
--                      src/chronicler/db/repository.py
--   Scheduler          src/chronicler/narrative/scheduler.py: `schedule`, `regenerate`, `_run` and
--                      `reorder_queued` as calls on the queue
--   Pause              src/chronicler/narrative/pause.py: the pause flag and `drain_for_campaign`
--   Clusters           src/chronicler/narrative/clusters.py: `detect_death_clusters`
--   Holdings           src/chronicler/save/titles.py: the titles that a character holds
--   Parse              src/chronicler/save/parse.py: in Parse/: Json (the helpers over the tree of a
--                      save), Index (the loop that the tables share), Tables (wars, epidemics,
--                      activities, contracts, court positions, artifacts), Titles (tiers, holders,
--                      kingdoms by empire) and People (families, memories, alliances, names)
--   Tailer             src/chronicler/tailer/: Scan, Envelope, Parser and Feed (parser.py, with
--                      `IncrementalParser.feed` and `flush`), and Watcher (`TailedFile` of watcher.py)
--   Bus                src/chronicler/api/events.py: `EventBus`
--   LogBuffer          src/chronicler/api/log_buffer.py: `LogBufferHandler`
--   Base               shared helpers: Python's sets, dicts, sorting and text
--   Tests              concrete saves, calls and dates
-- The other files under these hold the proofs, and are named for what they are about.
--
-- How the code is read:
--   * An id is a natural number. A dict is the list of its items in insertion order, a set is a list
--     of which only membership is used, and `sorted` is an insertion sort without duplicates on sets.
--   * A function that may raise returns a `Result`: the `KeyError` of a missing title and the
--     `ValueError` of two playthroughs are the exceptions that the modelled code can raise.
--   * `diff_snapshots` walks a set of ids. The model walks it in any order that is given to `diff_over`.
--   * The markup remover that names wars is a parameter of the diff, without assumptions.
--   * The regular expressions of the dates are scanners. `\d` and `\w` are read over ASCII.
--   * Renown is counted in hundred-thousandths, the step of the engine's fixed-point numbers.
--   * Printing a number in decimal runs on fuel, the number plus four, of which each round uses one and
--     divides the number by ten; the round trip of printing and reading holds for every number.
--   * The methods of the queue hold its lock for their whole body, so a run is a sequence of calls. The
--     clock is an argument. A listener is a number, and what reaches it is a log, newest frame first;
--     an item in the log is as it was when the frame was sent.
--   * A task of the scheduler is the calls that it makes on the queue, by its outcome; one that is
--     cancelled before its first step makes none. A reorder takes it that the task of every queued item
--     waits, so that each ends with the report of its cancellation, which finds no item any more.
--   * A table of the database is the list of its rows, newest first. Ids of events ascend, since no event
--     is deleted. The JSON of an event and the filling of a character's row are parameters.
--   * The monotonic clock of the pause flag ticks in milliseconds, and never runs backwards. A drain has
--     a scheduler with a queue state; what the gates answer is known for each character, and the rows
--     of the characters and of the biographies are given in the order of the query.
--   * The tree of a save is JSON whose numbers are natural, or fixed-point ones counted in
--     hundred-thousandths; the ids and amounts of a save are not negative, and a text that reads as a
--     negative number is read as none. A loop of the parser over a table is one function, given what
--     the loop makes of a record.
--   * The inference of the tiers of titles runs on fuel, the number of titles plus one, since a title
--     is in flight once; the walk to an empire on the number of titles plus two, since no title is seen
--     twice. Both are proved to be enough, for hierarchies with cycles too.
--   * The parser of the log is a function of a line, of the clock and of the pending event. The
--     validation of an envelope is a parameter, without assumptions, and so is the decoding of bytes.
--   * A file that grows is its bytes at each read; a read goes to the end of the file.
--   * The queues of the event bus are known by numbers. A publication from another thread leaves
--     callbacks in a list, which the loop runs in their order.
--   * Parsing JSON for the clusters and numbering days are the standard library's, and parameters of
--     the clusters.
--
-- Not modelled: the log lines of the program, the characters and dynasties of the parser of the
-- saves, the other queries of the database, the event loop and the language models, the HTTP
-- interface, the pages, the export and the synchronisation. The limit of CPython on the depth of
-- recursion, which a very long chain of lieges without a tier in their keys would reach, is left
-- out. Of the snapshots, the fields that hold floats or raw save trees are left out, which the diff
-- does not read.
pub mod Base
pub mod Dates
pub mod Snapshot
pub mod Events
pub mod Diff
pub mod Lifestyles
pub mod Splendor
pub mod Clusters
pub mod Holdings
pub mod Queue
pub mod Scheduler
pub mod Bus
pub mod LogBuffer
pub mod Ingest
pub mod Parse
pub mod Pause
pub mod Tailer
pub mod Tests
