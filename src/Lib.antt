-- ===== src/Lib.antt =====
-- A model of atom-shell's own logic, with the theorems that make it correct. Paths are from the
-- repository's root.
--
-- The parts and the files that model them:
-- - Common: booleans, lists, signed integers and std::map (Common/Dictionary, an association list in
--   key order) over the native numbers.
-- - Protocol: custom protocols. Protocol/Factory is atom/browser/net/atom_url_request_job_factory.cc
--   (the map from schemes to handlers), Protocol/Registry is atom/browser/api/atom_api_protocol.cc
--   (the calls on the UI thread, the tasks that they post to the IO thread, and the events posted
--   back), Protocol/Jobs and Protocol/Serving are CustomProtocolRequestJob of that file and
--   atom/browser/net/adapter_request_job.cc. The threads are two queues and an interleaving is a list
--   of calls and turns. A crash (a null or foreign handler, a null callback, a missing buffer) is `none`.
--   net::URLRequest::IsHandledProtocol, the jobs of the content layer's handlers and the results of
--   JavaScript callbacks are arguments.
-- - Lifecycle: quitting and closing. Lifecycle/Browser is atom/browser/browser.cc and
--   atom/browser/window_list.cc, Lifecycle/Closing and Lifecycle/Fullscreen are parts of
--   atom/browser/native_window.cc. Windows, the platform, the renderer and the message loop act through
--   the events of Lifecycle/Events; JavaScript's answers come with each event. What the code tells its
--   observers and the content layer is a list of messages. A window's Close reaches CloseWebContents at
--   once, as in atom/browser/native_window_views.cc, and CloseImmediately is a message that the
--   deletion of the widget answers.
-- - Accelerator: accelerators. Accelerator/Keys, Accelerator/Parse and Accelerator/Table are
--   atom/browser/ui/accelerator_util.cc, Accelerator/Shortcuts is
--   atom/browser/api/atom_api_global_shortcut.cc. The string functions of base, the codes of the keys
--   and the answers of Chromium's shortcut listener are arguments. Accelerator/Effects has
--   the vocabulary of the tokens, and Accelerator/Meaning what a description means by it.
-- - Renderer: what the browser process knows of a renderer and tells it. Renderer/Guests is
--   atom/browser/web_view_manager.cc, Renderer/Windows is the part of atom/browser/native_window.cc that
--   reads options and passes them on, Renderer/Client is atom/browser/atom_browser_client.cc. What
--   native_mate reads from an option, the text of a number and the process of a WebContents at the time
--   of a call are arguments.
-- - Asar: archives. Asar/Header and Asar/Archive are atom/common/asar/archive.cc after Init,
--   Asar/Locate is atom/common/asar/asar_util.cc and atom/browser/net/asar/asar_protocol_handler.cc, and
--   Asar/Job is atom/browser/net/asar/url_request_asar_job.cc, less Kill. Following links runs on fuel, the depth
--   of the stack, and Asar/Links says when it is enough; the search for an archive runs on fuel too,
--   and more than the depth of the path is enough. The paths of base, its parsers, temporary files and
--   the answers of net::FileStream are arguments.
-- - Convert: JavaScript values and base::Value. Convert/FromV8 and Convert/ToV8 are
--   atom/common/native_mate_converters/v8_value_converter.cc, and value_converter.cc beside it.
--   A heap is a function from numbers to objects, with what each getter gives. Convert/Depth, Once,
--   Visits, Built, Making, Sendable, Reading and RoundTrip hold the lemmas. The fuel of the conversion
--   is the code's own limit of 20 levels. Numbers, hashes and the heap are arguments.
-- - Spell: spell checking. Spell/Client is atom/renderer/api/atom_api_spell_check_client.cc,
--   Spell/Swaps the array in which it swaps characters. The iterators over words, the scripts of
--   characters and the check of a word are arguments. The rounds of the correction are those of the code.
-- - Views: windows with a menu bar, as built for X11. Views/MenuBar is
--   atom/browser/ui/views/menu_bar.cc, submenu_button.cc and menu_layout.cc, Views/Window and
--   Views/Keys are parts of atom/browser/native_window_views.cc. Scripts call the window through a list
--   of calls, the commands of unhandled keys included. The frame of the window manager, the marked
--   character of a label and whether the global menu's server has started are arguments.
-- - Ids: Ids/WeakMap is atom/common/api/atom_api_id_weak_map.cc, with the hidden value that it sets
--   on objects; Ids/Alive gives its runs as steps. Which objects V8 collects is an argument.
-- - Node: libuv's loop beside the main loop. Node/Bindings is atom/common/node_bindings.cc from
--   PrepareMessageLoop to the destructor: an interleaving is a list of turns of the two threads, and a
--   step that blocks changes nothing. Whether libuv has an event comes with each turn, and what uv_run
--   returns with each end of UvRunOnce. RunMessageLoop may be called again, as
--   atom/renderer/atom_renderer_client.cc does.
-- - DevTools: DevTools/Files is the part of atom/browser/native_window.cc that saves files for the
--   developer tools. The disk is a map that only these calls change, in which writing succeeds. What the dialogs answer
--   comes with each request.
-- - Dialogs: Dialogs/MessageBox is atom/browser/ui/message_box_views.cc, with the DialogScope of
--   atom/browser/native_window.h. What the user does is a list of inputs; the sizes of texts are arguments.
-- - Contents: the WebContents of scripts, atom/browser/api/atom_api_web_contents.cc. Contents/Notices
--   says what each notice of content emits, Contents/Guest and Operations have the state and what changes
--   it, Contents/Calls their sequences. The end of the process by a call through NULL is a result. The
--   listeners of an event do not call back. The value of an uninitialised member is an argument.
-- - GlobalMenu: GlobalMenu/Items is atom/browser/ui/views/global_menu_bar_x11.cc, with the items of
--   libdbusmenu as a tree that the desktop walks. The menu models are an argument and do not change.
-- - Frameless: Frameless/Hits is atom/browser/ui/views/frameless_view.cc with the draggable regions of
--   atom/browser/native_window_views.cc and atom/renderer/atom_render_view_observer.cc. SkRegion is an
--   argument, with what it promises of union and difference. Coordinates do not overflow.
-- - Images: Images/Representations is the loading of files of atom/common/api/atom_api_native_image.cc.
--   A name is the list of its characters' codes; files, codecs and the string functions of base are
--   arguments, with what base promises of names. That a file keeps its extension when a scale is put
--   into its name is a condition on the file.
-- - Scripts: Scripts/Frames is atom/renderer/atom_renderer_client.cc, Scripts/Messages the messages of
--   atom/renderer/atom_render_view_observer.cc and atom/renderer/api/atom_api_renderer_ipc.cc.
-- - Tray: Tray/Icons is atom/browser/ui/win/notify_icon_host.cc and notify_icon.cc. Shell_NotifyIcon and
--   its taskbar are an argument, with what they promise of a call that succeeds; a call may also fail,
--   which is logged as a warning.
--
-- Not modelled: drawing, windows and menus of the platforms, the bindings to JavaScript and node,
-- the code copied from Chromium, and what only passes values on.
pub mod Common
pub mod Protocol
pub mod Lifecycle
pub mod Accelerator
pub mod Renderer
pub mod Asar
pub mod Convert
pub mod Spell
pub mod Views
pub mod Ids
pub mod Node
pub mod DevTools
pub mod Dialogs
pub mod Contents
pub mod GlobalMenu
pub mod Frameless
pub mod Scripts
pub mod Images
pub mod Tray
