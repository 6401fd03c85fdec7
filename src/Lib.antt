-- ===== src/Lib.antt =====
-- oclock: the clock program for a small board with an LED matrix, an LED strip, a light sensor and
-- a motion sensor. Its threads share singletons under mutexes; each model below is of one of them.
--
-- Common: what the models share: the native numbers, Boolean tests, lists, association lists (an
--   unordered map from numbers), sorted maps (std::map from strings), strings as lists of
--   character codes, integers, std::stoi with base 10 and with any base, decimal numerals, and bitwise
--   operations as sums and remainders.
-- Inbox: src/inbox.h and src/inbox.cpp, the mailboxes between the threads. `InboxMsg`, `Inbox` and
--   the registry's map are records and lists; addMessage is `add_message`, waitForMessage is
--   `wait_for_message` (none while it blocks), getMessage is `get_message`. Fifo is about one inbox
--   under any interleaving, Registry about broadcasts.
-- TimerTick: src/timerTick.h and src/timerTick.cpp. Service objects live in a memory from addresses
--   to objects, as their owners and the tick table share them by pointer; the table maps ids to
--   addresses. A read of an address without an object is the error `dangling`, so that statements
--   of success say that no such read happens. One pass of runThreadLoop is `tick`. The order in which the
--   unordered map is visited is the order of the list. Wf, Register, Tick and Period are about the
--   agreement of table and objects, about registration, about one pass and about many; Poll is
--   getAndResetExpired and wait, by which the owners learn of an expiry.
-- Dictionary: src/dictionary.h and src/dictionary.cpp, values that expire. Each entry owns a timer
--   service in the memory of TimerTick. Methods are actions on the dictionary that may throw. Visit is
--   getFirst, getNext and the purge; their loops run on fuel, one more than there are entries, which
--   is enough as each step goes to a greater key.
-- LightSensor, MotionSensor: src/lightSensor.cpp and src/motionSensor.cpp; what the pins and the
--   converter give are arguments.
-- Dimmer: updateDim of src/displayInternal.cpp, which reads the light sensor, sets the brightness
--   of the matrix and tells the other threads through Inbox.
-- Message: the data of the message mode of src/displayInternal.cpp, with its timeout and its blinking; the
--   animation of backgrounds, the fonts' heights and the day of the month; Background is the slots of the
--   background images and the request that fills one.
-- Display: src/display.cpp and the modes of src/displayInternal.cpp. Thread is the queue of requests and a pass of the
--   loop over an interface `DisplayInternal`; Modes, Ticks, Message and Backgrounds fill it: the mode table with its
--   handlers, the scrolling and bouncing of a message, the requests. What the handlers draw is the
--   record `Drawing` on a matrix of any type. Fifo is about the queue; Transitions, Steps and Lasting
--   are about the modes over time.
-- WebHandler: src/webHandlerInternal.cpp. Form is parsePost over its one buffer, where an access outside the array is
--   no step; Buffer, Written, Values and Walk compare it with a walk that has texts of their own, Encoding and
--   RoundTrip with what a browser encodes. Routing is the table of _start and findWebHandler, where handler objects
--   lie at addresses, since `/` and `/index.html` share one; Routes and Hits are about it. Html and Pages are the
--   pages; Output and Process are the handlers, from handleRequest to the queues of the display and of the LED strip,
--   the dictionary and the status report. Selected, Serving, Answers, Reading and Posting are about whole requests.
-- Lpd8806: lpd8806/LPD8806.cpp, the driver of the LED strip, on bit-banged pins or on SPI. Whether
--   malloc succeeds is a parameter. Pins and device are the list of what was done to them.
-- LedStrip: src/ledStripInternal.cpp and src/ledStrip.cpp. The root file is the frames that the modes draw;
--   Params is the parameters of a request, with what src/commonUtils.cpp does for them; Modes is the table of
--   modes with their handlers; Change is changeLedStripMode, the timeout, the ticks and the
--   requests; Thread is the queue of requests and a pass of the loop. The random numbers are a given sequence.
--   Keeps, Timeout and Requests are about the mode over time.
-- Mqtt: src/mqttClient.cpp. The mosquitto library is a parameter: what each call answers, and the callbacks
--   that it makes meanwhile. `turn` is a pass of the loop on a message, and what is published is a list.
-- StatusReport: src/statusReport.cpp and src/statusReportGather.cpp. The root file is the numbers and the JSON
--   strings, System the reading of /proc, Render the JSON document, Text the text page, Gather the
--   snapshot of the running components. Escaping has a reader of JSON strings; Load and Loadavg are
--   about the loads, Plain about the document as a C string that Mqtt publishes.
-- Ht1632: ht1632/HT1632.cpp, the driver of the LED matrix: its memory, its targets and the signals
--   on its four lines; Text is the layout of a text as the images that drawText draws. A burst of writes and single writes are the same signals.
--
-- A method that holds its mutex from start to end is one step; interleavings are sequences of such
-- steps. parsePostRequest of the dictionary takes the mutex in each of its calls and is modelled without other
-- threads in between. Machine integers wrap where the source's do: counters of 8 and 32 bits, ids of 64 bits, the
-- strip's 16-bit offsets. Only the visit of the dictionary takes fuel: every other loop modelled runs over a list or counts down.
-- Ids of the tick service are assumed not to run out (2 ^ 64) where a statement says so, and `new`
-- is assumed to succeed with memory that was not used before.
--
-- The numbers of the request methods are those that libevent documents. What libevent hands to handleRequest (the method,
-- the path and the body), server_stop and the texts of exceptions are arguments.
--
-- Not modelled: libevent and the workers of the web server, device access through the kernel, the copying of images into
-- the matrix with the tables of fonts and images, what the clock draws, the options of the program, the
-- threads' start and stop, and what the components' own headers name.
pub mod Common
pub mod Dictionary
pub mod Dimmer
pub mod Display
pub mod Ht1632
pub mod Inbox
pub mod LedStrip
pub mod LightSensor
pub mod Lpd8806
pub mod Message
pub mod MotionSensor
pub mod Mqtt
pub mod StatusReport
pub mod TimerTick
pub mod WebHandler
