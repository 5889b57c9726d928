-- ===== src/Lib.antt =====
-- A verification library for vfdd, the driver and daemon of a seven-segment display.
--
-- The program has two parts. The kernel driver (vfdmod/linux_vfd) turns a text into the words of the
-- display RAM of a PT6964 chip or a relative and sends them over three wires. The daemon (the files at
-- the top of the repository) reads its configuration as JSON with the help of a dynamic buffer and
-- writes texts to the driver.
--
-- Files and what they model:
-- - Prelude: shared names, Boolean tests, lists over the native numbers (Prelude/Lists), outcomes of C
--   code (Prelude/Effects: `done`, `fatal` for an exit of the program, `fault` for undefined
--   behaviour), blocks of memory (Prelude/Memory) and binary digits (Prelude/Bits).
-- - Strmem: strmem.c, `app_power_of_2` and `app_strlen`. The loop has fuel 32 + 1, one round for each
--   bit and one for the test.
-- - Dbuf: dbuf.c and dbuf.h. Dbuf.antt has the record and the writing operations, Dbuf/Read the
--   reading ones, Dbuf/Line `dbuf_get_line`. Dbuf/Bounds has the invariant, Dbuf/Contents and
--   Dbuf/Reads the view of a buffer as a text with a cursor, Dbuf/Lines and Dbuf/GetLine the
--   specification of a line. The loop of `dbuf_get_line` has fuel: more than the bytes that are left
--   is enough.
-- - Driver: vfdmod/linux_vfd/vfd-priv.h, `struct vfd_t`. Driver/Glyphs is vfd-glyphs.c and the segment
--   numbers of vfd-glyphs.c.h, Driver/Cathode vfd-cc.c, Driver/Anode vfd-ca.c, Driver/Bus,
--   Driver/Refresh and Driver/Keypad pt6964.c and pt6964.h. Driver/Store and Driver/DotLeds are the
--   sysfs writes of vfd.c, Driver/Scan its key scan and Driver/Timer its timer; Driver/Scanned and
--   Driver/Stored have the theorems on them. The loop of the key scan has fuel 32, a round for each
--   bit of the bitmap. Driver/Session is the driver at work, a handler for each event (the sysfs
--   writes, the power state, the timer); Driver/Steady says what holds between two events,
--   Driver/Overlay and Driver/Lamps what writes do to the overlay, Driver/Ticks what the timer does,
--   Driver/Safety and Driver/History what holds of all sequences of events. A timer event carries the
--   levels that the chip answers on DI while the keys are read; Driver/Keyframe is about what the
--   frame of the key scan does to the chip. Driver/Probe is the start of the driver from the device
--   tree and its end; Driver/Started and Driver/Probed show that it starts in step with the chip,
--   Driver/Acts and Driver/Released what is given back. The fuel of the loop of dotled_store is the
--   count of the bytes written: each round takes one at least. Driver/Chip describes the chip by the
--   commands of pt6964.h, Driver/Frames what a frame does to it, Driver/Update and Driver/Panel that
--   the driver's frames have the effect they are meant to have, Driver/Cells and Driver/Digits which
--   lamps a text lights.
-- - Utf8: utf8.c and c2hex.c. Timerms: timerms.c, with Timerms/Due on when a timer is called.
-- - Dlist: dlist.c and the reference counts of appclass.c. Dlist.antt adds and removes nodes,
--   Dlist/Walk has the operations that walk the list, with fuel: a round for each node and one for the
--   test that ends the loop. Dlist/Ring says what a ring of nodes is; Dlist/Adds, Dlist/Takes,
--   Dlist/Queue, Dlist/Walks and Dlist/Deletes show what the operations do to it.
-- - Json: jsonroot.c. Json/Strings reads a string and Json/Number a number (their loops have fuel:
--   more than the bytes that they read are enough), Json/Print prints one. Json/Escapes and
--   Json/Printed have the text that is printed, Json/Reading, Json/RoundTrip and Json/RoundTrips what
--   is read. Json/Tree is a tree of nodes (jsonnode.h) and its printer; Json/Render has the text of a
--   tree, Json/Writes, Json/Rendered and Json/Printing that it is printed. Json/Items has the values
--   of nodes (jsonnode.c) and the functions that add items, Json/Path the search by path (jsonpath.c),
--   Json/Access the items by path; Json/Added, Json/Found and Json/Accessed have the theorems on them.
--   Json/Parse is the parser of values, arrays and objects: an item is the address of a node in the
--   tree, and Json/Locate is the search by path with addresses. Its fuel falls by one at each call and
--   each round of a loop, and is passed on to the loops over the bytes of a string or number;
--   Json/Docs says which trees read back and what fuel is enough for each. Json/Place and Json/Absent
--   have the place of the node that is being read and its path, Json/Steps, Json/Values, Json/Numerals
--   and Json/Reads the parts of a value, Json/Elems and Json/Fields a round of each loop, Json/Joined
--   the children that the rounds leave, Json/Brackets, Json/Wholes and Json/Trees a whole value,
--   Json/ReadBack a whole text. A double is a value of a parameter type, with its text and its
--   conversion to int as parameters.
-- - Daemon: vfdd.c, dotled.c and display.c, the timer callback of the daemon and what it calls;
--   Daemon/Letters, Daemon/Written and Daemon/Exit show what a run writes. The time, libc's formatting
--   and the files are a record of parameters.
-- - Selloop: selloop.c and channel.h, the bookkeeping of the event loop and one round of it;
--   Selloop/Watched shows which descriptors are watched.
-- - Stutil: stutil.c, tokens and blanks; Stutil/Blanks shows what is left of a text without its
--   blanks.
-- - The Tests modules: runs on concrete data.
--
-- State and operations: a struct is a record with the fields of the source, a function that changes a
-- struct takes the record and gives the new one, in an `Outcome` where C can go wrong. A write to a
-- pin is an element of a list of pin events, in the order of the source. A block of memory is the list
-- of its bytes; fresh memory holds a byte `junk` that nothing is known of. An `int` is a natural
-- number; the places where it could leave its range are told apart. The two buffers of one call are
-- different objects.
--
-- Not modelled: what the destructor of a class does to other objects (Dlist notes that it is called);
-- locks, delays and log messages of the driver; allocation that fails; printf-like functions; the
-- configuration of the daemon, which its constructors take from the JSON tree; the system calls of the
-- event loop.
pub mod Prelude
pub mod Strmem
pub mod Dbuf
pub mod Driver
pub mod Utf8
pub mod Timerms
pub mod Dlist
pub mod Json
pub mod Daemon
pub mod Selloop
pub mod Stutil
